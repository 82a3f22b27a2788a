-- ===== src/Controller/Kubernetes/Success.antt =====
-- When the Kubernetes stage succeeds.
use upgrade_controller.Prelude.{
  String, ◌≡◌, ◌∙◌, refl, true, false, Option, some, none, List, All, keep, Bool-cases, inl, inr,
  if◌then◌else◌,
}
use upgrade_controller.Errors.{ok, in_context, ok_of_in_context}
use upgrade_controller.Kube.{Node, Plan, object_key}
use upgrade_controller.Api.UpgradePlan.{UpgradePlan}
use upgrade_controller.Api.ReleaseManifest as Manifest
use upgrade_controller.Api.ReleaseManifest.{KubernetesDistribution}
use upgrade_controller.Upgrade.Base.{control_plane_selector, worker_selector}
use upgrade_controller.Controller.Env.{Env}
use upgrade_controller.Controller.Effects.{effects, State}
use upgrade_controller.Controller.Effects.Rules.{if_found_rule, lift_rule}
use upgrade_controller.Controller.Nodes.{
  is_control_plane, is_kubernetes_upgraded, control_plane_only_cluster,
}
use upgrade_controller.Controller.Nodes.Selection.{
  SelectorLaws, KeepsSelector, control_planes-eq, workers-eq,
}
use upgrade_controller.Controller.Nodes.Upgraded.{
  AllOnKubernetes, IsReadyOn, is_kubernetes_upgraded_iff, All_of_roles, keep-control_plane_only,
}
use upgrade_controller.Controller.Conditions.Laws.{ConditionLaws, has_true}
use upgrade_controller.Controller.Stage.{create_in_progress, wait_in_progress, finish, check_nodes}
use upgrade_controller.Controller.Stage.Progress.{
  Progress, create_in_progress-Progress, Done_of_Progress,
}
use upgrade_controller.Controller.Stage.Rules.{check_nodes_rule}
use upgrade_controller.Controller.Kubernetes.{
  k8s_stage, target_kubernetes_distribution, get_k8s_core_components_upgrade_status, wait_or_finish,
  reconcile_core_components, reconcile_kubernetes_workers, reconcile_kubernetes_control_plane,
  kubernetes_plans, reconcile_distribution, reconcile_kubernetes,
}
use upgrade_controller.Controller.Kubernetes.Components.{IsUpgradedOrAbsent, no_waiting_iff}
use upgrade_controller.Controller.Kubernetes.Order.{kubernetes_plans_selectors}

-- Both plans that are stored have the selectors that the controller gave them.
abbrev pub KeepSelectors : (e : Env) → Manifest.Kubernetes → List Node → State e.World → Type 0
KeepSelectors e kubernetes nodes s =
    (distro : KubernetesDistribution)
    → target_kubernetes_distribution nodes kubernetes ≡ ok distro
    → KeepsSelector e s.world (kubernetes_plans s.plan distro nodes).0
      × KeepsSelector e s.world (kubernetes_plans s.plan distro nodes).1

-- The nodes' distribution, with every node on its version and every core component upgraded or
-- not on the cluster.
pub record IsUpgraded (e : Env) (w : e.World) (kubernetes : Manifest.Kubernetes) (nodes : List Node)
    : Type 0 where
  pub distro : KubernetesDistribution
  pub target : target_kubernetes_distribution nodes kubernetes ≡ ok distro
  pub nodes_ready : AllOnKubernetes distro.version nodes
  pub components_ready : All (IsUpgradedOrAbsent e w) distro.core_components

module _ (e : Env) (laws : SelectorLaws e) (kubernetes : Manifest.Kubernetes) (nodes : List Node)
    (s : State e.World) where
  abbrev KubernetesProgress : UpgradePlan → Type 0
  KubernetesProgress after =
      Progress e.conditions k8s_stage (IsUpgraded e s.world kubernetes nodes) s.plan after

  wait_progress :
      (message : String) → KubernetesProgress (wait_in_progress e k8s_stage message s).1.plan
  unfolding effects wait_in_progress
  wait_progress message = Progress.in_progress message refl

  finish_progress :
      IsUpgraded e s.world kubernetes nodes → KubernetesProgress (finish e k8s_stage s).1.plan
  unfolding effects finish
  finish_progress done = Progress.successful "All cluster nodes are upgraded" refl done

  module _ (distro : KubernetesDistribution)
      (target : target_kubernetes_distribution nodes kubernetes ≡ ok distro) where
    components_progress :
        AllOnKubernetes distro.version nodes
        → KubernetesProgress (reconcile_core_components e distro s).1.plan
    unfolding effects reconcile_core_components
    components_progress ready =
        lift_rule (λ r. KubernetesProgress r.1.plan)
          (get_k8s_core_components_upgrade_status e s.world distro.core_components)
          (wait_or_finish e) s decide (λ error. Progress.kept refl) (λ p. Progress.kept refl)
      where
        decide :
            (o : Option String)
            → get_k8s_core_components_upgrade_status e s.world distro.core_components ≡ ok o
            → KubernetesProgress (wait_or_finish e o s).1.plan
        decide none q = finish_progress (record {
          distro = distro;
          target = target;
          nodes_ready = ready;
          components_ready = (no_waiting_iff e s.world distro.core_components).0 q;
        })
        decide (some name) q = wait_progress _

    workers_progress :
        (wp : Plan)
        → wp.spec.node_selector ≡ some worker_selector
        → KeepsSelector e s.world wp
        → AllOnKubernetes distro.version (keep is_control_plane nodes)
        → KubernetesProgress (reconcile_kubernetes_workers e distro nodes wp s).1.plan
    unfolding effects reconcile_kubernetes_workers
    workers_progress wp selector keeps ready =
        if_found_rule (λ r. KubernetesProgress r.1.plan) (e.get_plan (object_key wp.metadata))
          (create_in_progress e k8s_stage "Worker nodes are being upgraded" wp)
          (λ found.
            check_nodes e k8s_stage nodes found (λ ns. is_kubernetes_upgraded ns distro.version)
              "Worker nodes are being upgraded" (reconcile_core_components e distro))
          s
          (λ error q missing.
            create_in_progress-Progress e k8s_stage "Worker nodes are being upgraded" s wp)
          (λ found q.
            check_nodes_rule e k8s_stage (λ r. KubernetesProgress r.1.plan) nodes found
              (λ ns. is_kubernetes_upgraded ns distro.version) "Worker nodes are being upgraded"
              (reconcile_core_components e distro) s
              (λ ns found_ns pass. components_progress (
                All_of_roles (IsReadyOn (λ node. node.kubelet_version) distro.version) nodes ready (
                  rw
                    (workers-eq e laws nodes found.spec.node_selector ns (keeps found q ∙ selector)
                      found_ns)
                    ((is_kubernetes_upgraded_iff ns distro.version).0 pass))))
              (wait_progress "Worker nodes are being upgraded") (λ error. Progress.kept refl)
              (λ p. Progress.kept refl))
          (λ error. Progress.kept refl) (λ p. Progress.kept refl)

    control_plane_progress :
        (wp found : Plan)
        → found.spec.node_selector ≡ some control_plane_selector
        → wp.spec.node_selector ≡ some worker_selector
        → KeepsSelector e s.world wp
        → KubernetesProgress (reconcile_kubernetes_control_plane e distro nodes wp found s).1.plan
    unfolding effects reconcile_kubernetes_control_plane
    control_plane_progress wp found selector wp_selector keeps =
        check_nodes_rule e k8s_stage (λ r. KubernetesProgress r.1.plan) nodes found
          (λ ns. is_kubernetes_upgraded ns distro.version) "Control plane nodes are being upgraded"
          (if control_plane_only_cluster nodes
            then reconcile_core_components e distro
            else reconcile_kubernetes_workers e distro nodes wp)
          s
          (λ ns found_ns pass.
            let ready : AllOnKubernetes distro.version (keep is_control_plane nodes) =
              rw (control_planes-eq e laws nodes found.spec.node_selector ns selector found_ns)
                ((is_kubernetes_upgraded_iff ns distro.version).0 pass) in
            elim (Bool-cases (control_plane_only_cluster nodes)) [
              | inl only ↦
                  rw only (components_progress (rw (keep-control_plane_only nodes only) at ready))
              | inr mixed ↦ rw mixed (workers_progress wp wp_selector keeps ready)
            ])
          (wait_progress "Control plane nodes are being upgraded") (λ error. Progress.kept refl)
          (λ p. Progress.kept refl)

    distribution_progress :
        KeepSelectors e kubernetes nodes s
        → KubernetesProgress (reconcile_distribution e s.plan nodes distro s).1.plan
    unfolding effects reconcile_distribution
    distribution_progress keeps =
        let plans = kubernetes_plans s.plan distro nodes in
        let (cp_selector, wp_selector) = kubernetes_plans_selectors s.plan distro nodes in
        if_found_rule (λ r. KubernetesProgress r.1.plan)
          (e.get_plan (object_key (plans.0).metadata))
          (create_in_progress e k8s_stage "Control plane nodes are being upgraded" plans.0)
          (reconcile_kubernetes_control_plane e distro nodes plans.1) s
          (λ error q missing.
            create_in_progress-Progress e k8s_stage "Control plane nodes are being upgraded" s
              plans.0)
          (λ found q.
            control_plane_progress plans.1 found ((keeps distro target).0 found q ∙ cp_selector)
              wp_selector (keeps distro target).1)
          (λ error. Progress.kept refl) (λ p. Progress.kept refl)

  kubernetes_progress :
      KeepSelectors e kubernetes nodes s
      → KubernetesProgress (reconcile_kubernetes e kubernetes nodes s).1.plan
  unfolding effects reconcile_kubernetes
  kubernetes_progress keeps =
      lift_rule (λ r. KubernetesProgress r.1.plan)
        (in_context "identifying target kubernetes distribution"
          (target_kubernetes_distribution nodes kubernetes))
        (reconcile_distribution e s.plan nodes) s
        (λ distro q. distribution_progress distro (ok_of_in_context _ _ q) keeps)
        (λ error. Progress.kept refl) (λ p. Progress.kept refl)

-- When a pass over the Kubernetes stage turns the plan's KubernetesUpgraded condition true, every
-- node of the list is ready, schedulable and on the version of the distribution of the list's first
-- node, and every core component of that distribution is upgraded or not on the cluster. It is
-- assumed that conditions and selectors work as Kubernetes documents, and that the stored plans
-- have the selectors that the controller gave them.
pub reconcile_kubernetes_success :
    (e : Env) (conditions : ConditionLaws e.conditions) (selectors : SelectorLaws e)
    (kubernetes : Manifest.Kubernetes) (nodes : List Node) (s : State e.World)
    → KeepSelectors e kubernetes nodes s
    → has_true e.conditions s.plan k8s_stage ≡ false
    → has_true e.conditions (reconcile_kubernetes e kubernetes nodes s).1.plan k8s_stage ≡ true
    → IsUpgraded e s.world kubernetes nodes
reconcile_kubernetes_success e conditions selectors kubernetes nodes s keeps before after =
    Done_of_Progress e.conditions conditions k8s_stage
      (kubernetes_progress e selectors kubernetes nodes s keeps) before after
