-- ===== src/Controller/Kubernetes/Order.antt =====
-- The order of the Kubernetes stage: control plane plan, worker plan.
use upgrade_controller.Prelude.{
  ◌≡◌, ◌∙◌, ◌⊎◌, refl, inl, inr, some, List, ◌∷◌, arith, keep, lookup, true,
}
use upgrade_controller.Errors.{ok, in_context, ok_of_in_context}
use upgrade_controller.Kube.{Node, Plan, plan, object_key}
use upgrade_controller.Api.UpgradePlan.{UpgradePlan}
use upgrade_controller.Api.ReleaseManifest as Manifest
use upgrade_controller.Api.ReleaseManifest.{KubernetesDistribution}
use upgrade_controller.Upgrade.Base.{
  plan_identifier_labels, base_upgrade_plan, control_plane_selector, worker_selector,
}
use upgrade_controller.Upgrade.Kubernetes.{kubernetes_control_plane_plan, kubernetes_worker_plan}
use upgrade_controller.Controller.Env.{Env}
use upgrade_controller.Controller.Effects.{effects, Call, created, State}
use upgrade_controller.Controller.Effects.Changes.{changes}
use upgrade_controller.Controller.Effects.Rules.{if_found_rule, lift_rule}
use upgrade_controller.Controller.Nodes.{
  find_matching_nodes, is_control_plane, is_kubernetes_upgraded,
}
use upgrade_controller.Controller.Nodes.Selection.{SelectorLaws, KeepsSelector, control_planes-eq}
use upgrade_controller.Controller.Nodes.Upgraded.{AllOnKubernetes, is_kubernetes_upgraded_iff}
use upgrade_controller.Controller.Stage.{create_in_progress, wait_in_progress, finish, check_nodes}
use upgrade_controller.Controller.Stage.Changes.{changes-create_in_progress}
use upgrade_controller.Controller.Kubernetes.{
  k8s_stage, target_kubernetes_distribution, reconcile_core_components,
  reconcile_kubernetes_workers, reconcile_kubernetes_control_plane, kubernetes_plans,
  reconcile_distribution, reconcile_kubernetes,
}

-- What one pass over the stage changes: nothing, or one new plan. A worker plan comes only when
-- every control plane node is ready on the wanted version.
pub data KubernetesPass (kubernetes : Manifest.Kubernetes) (nodes : List Node)
    (before after : List Call) : Type 0 where
  no_change : after ≡ before → KubernetesPass kubernetes nodes before after
  new_control_plane_plan :
      (o : Plan)
      → after ≡ created (plan o) ∷ before
      → lookup "k8s-upgrade" o.metadata.labels ≡ some "control-plane"
      → KubernetesPass kubernetes nodes before after
  new_worker_plan :
      (o : Plan) (distro : KubernetesDistribution)
      → after ≡ created (plan o) ∷ before
      → lookup "k8s-upgrade" o.metadata.labels ≡ some "worker"
      → target_kubernetes_distribution nodes kubernetes ≡ ok distro
      → AllOnKubernetes distro.version (keep is_control_plane nodes)
      → KubernetesPass kubernetes nodes before after

module _ (owner : UpgradePlan) (distro : KubernetesDistribution) (nodes : List Node) where
  pub kubernetes_plans_labels :
      (lookup "k8s-upgrade" ((kubernetes_plans owner distro nodes).0).metadata.labels
        ≡ some "control-plane")
      × (lookup "k8s-upgrade" ((kubernetes_plans owner distro nodes).1).metadata.labels
          ≡ some "worker")
  unfolding effects kubernetes_plans kubernetes_control_plane_plan kubernetes_worker_plan
      base_upgrade_plan plan_identifier_labels lookup
  kubernetes_plans_labels = (refl, refl)

  pub kubernetes_plans_selectors :
      (((kubernetes_plans owner distro nodes).0).spec.node_selector ≡ some control_plane_selector)
      × (((kubernetes_plans owner distro nodes).1).spec.node_selector ≡ some worker_selector)
  unfolding effects kubernetes_plans kubernetes_control_plane_plan kubernetes_worker_plan
  kubernetes_plans_selectors = (refl, refl)

module _ (e : Env) (distro : KubernetesDistribution) (nodes : List Node) (s : State e.World) where
  components_changes : changes (reconcile_core_components e distro s).1.trace ≡ changes s.trace
  unfolding effects reconcile_core_components wait_in_progress finish
  components_changes = ground arith

  workers_changes :
      (wp : Plan)
      → (changes (reconcile_kubernetes_workers e distro nodes wp s).1.trace ≡ changes s.trace)
        ⊎ (changes (reconcile_kubernetes_workers e distro nodes wp s).1.trace
            ≡ created (plan wp) ∷ changes s.trace)
  unfolding effects reconcile_kubernetes_workers wait_in_progress check_nodes
  workers_changes wp = ground (
    arith,
    components_changes,
    changes-create_in_progress e k8s_stage "Worker nodes are being upgraded" s wp,
  )

  control_plane_changes :
      (wp found : Plan)
      → (changes (reconcile_kubernetes_control_plane e distro nodes wp found s).1.trace
          ≡ changes s.trace)
        ⊎ (ns : List Node) × (find_matching_nodes e nodes found.spec.node_selector ≡ ok ns)
          × (is_kubernetes_upgraded ns distro.version ≡ true)
          × (changes (reconcile_kubernetes_control_plane e distro nodes wp found s).1.trace
              ≡ created (plan wp) ∷ changes s.trace)
  unfolding effects reconcile_kubernetes_control_plane wait_in_progress check_nodes
  control_plane_changes wp found = ground (arith, components_changes, workers_changes wp)

module _ (e : Env) (laws : SelectorLaws e) (kubernetes : Manifest.Kubernetes) (nodes : List Node)
    (s : State e.World) where
  control_plane_pass :
      (distro : KubernetesDistribution) (wp cp found : Plan)
      → target_kubernetes_distribution nodes kubernetes ≡ ok distro
      → lookup "k8s-upgrade" wp.metadata.labels ≡ some "worker"
      → cp.spec.node_selector ≡ some control_plane_selector
      → found.spec.node_selector ≡ cp.spec.node_selector
      → KubernetesPass kubernetes nodes
          (changes s.trace)
          (changes (reconcile_kubernetes_control_plane e distro nodes wp found s).1.trace)
  control_plane_pass distro wp cp found target l c f =
      elim (control_plane_changes e distro nodes s wp found) [
        | inl same ↦ KubernetesPass.no_change same
        | inr (ns, found_ns, ready, made) ↦ KubernetesPass.new_worker_plan wp distro made l target (
            rw (control_planes-eq e laws nodes found.spec.node_selector ns (f ∙ c) found_ns)
              ((is_kubernetes_upgraded_iff ns distro.version).0 ready))
      ]

  distribution_pass :
      (owner : UpgradePlan) (distro : KubernetesDistribution)
      → target_kubernetes_distribution nodes kubernetes ≡ ok distro
      → KeepsSelector e s.world (kubernetes_plans owner distro nodes).0
      → KubernetesPass kubernetes nodes
          (changes s.trace)
          (changes (reconcile_distribution e owner nodes distro s).1.trace)
  unfolding effects reconcile_distribution
  distribution_pass owner distro target keeps =
      let plans = kubernetes_plans owner distro nodes in
      let (cp_label, wp_label) = kubernetes_plans_labels owner distro nodes in
      if_found_rule (λ r. KubernetesPass kubernetes nodes (changes s.trace) (changes r.1.trace))
        (e.get_plan (object_key (plans.0).metadata))
        (create_in_progress e k8s_stage "Control plane nodes are being upgraded" plans.0)
        (reconcile_kubernetes_control_plane e distro nodes plans.1) s
        (λ error q missing.
          KubernetesPass.new_control_plane_plan plans.0
            (changes-create_in_progress e k8s_stage "Control plane nodes are being upgraded" s
              plans.0)
            cp_label)
        (λ found q.
          control_plane_pass distro plans.1 plans.0 found target wp_label
            (kubernetes_plans_selectors owner distro nodes).0 (keeps found q))
        (λ error. KubernetesPass.no_change refl) (λ p. KubernetesPass.no_change refl)

-- One pass over the Kubernetes stage changes nothing, or creates one object: the control plane
-- plan, or the worker plan, and the worker plan only when every control plane node of the list is
-- ready, schedulable and on the version of the distribution that the list's first node runs. It is
-- assumed that selectors select as Kubernetes documents, and that a stored control plane plan has
-- the selector that the controller gave it.
pub reconcile_kubernetes-KubernetesPass :
    (e : Env) (laws : SelectorLaws e) (kubernetes : Manifest.Kubernetes) (nodes : List Node)
    (s : State e.World)
    → ((distro : KubernetesDistribution)
        → target_kubernetes_distribution nodes kubernetes ≡ ok distro
        → KeepsSelector e s.world (kubernetes_plans s.plan distro nodes).0)
    → KubernetesPass kubernetes nodes
        (changes s.trace)
        (changes (reconcile_kubernetes e kubernetes nodes s).1.trace)
unfolding effects reconcile_kubernetes
reconcile_kubernetes-KubernetesPass e laws kubernetes nodes s keeps =
    lift_rule (λ r. KubernetesPass kubernetes nodes (changes s.trace) (changes r.1.trace))
      (in_context "identifying target kubernetes distribution"
        (target_kubernetes_distribution nodes kubernetes))
      (reconcile_distribution e s.plan nodes) s
      (λ distro q.
        distribution_pass e laws kubernetes nodes s s.plan distro (ok_of_in_context _ _ q)
          (keeps distro (ok_of_in_context _ _ q)))
      (λ error. KubernetesPass.no_change refl) (λ p. KubernetesPass.no_change refl)
