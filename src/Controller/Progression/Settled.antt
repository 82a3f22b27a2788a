-- ===== src/Controller/Progression/Settled.antt =====
-- Clusters in which an upgrade is done: what the OS and the Kubernetes stage find there.
pub mod Charts
pub mod Done
pub mod Passes
use upgrade_controller.Prelude.{
  String, ◌≡◌, ◌∙◌, refl, true, false, Bool, List, none, ◌⊎◌, inl, inr, ap,
}
use upgrade_controller.Errors.{ok, in_context}
use upgrade_controller.Kube.{Node, Plan, Secret, NamespacedName, object_key}
use upgrade_controller.Api.UpgradePlan.{UpgradePlan}
use upgrade_controller.Api.ReleaseManifest as Manifest
use upgrade_controller.Api.ReleaseManifest.{OperatingSystem, KubernetesDistribution}
use upgrade_controller.Upgrade.Base.{plan_identifier_labels}
use upgrade_controller.Upgrade.Os.{os_upgrade_secret}
use upgrade_controller.Controller.Env.{Env}
use upgrade_controller.Controller.Effects.{Eff, State, CtrlResult, requeue_if, effects}
use upgrade_controller.Controller.Conditions.{set_successful_condition}
use upgrade_controller.Controller.Nodes.{
  parse_drain_options, is_os_upgraded, is_kubernetes_upgraded, control_plane_only_cluster,
  find_matching_nodes,
}
use upgrade_controller.Controller.Stage.{wait_in_progress, finish, check_nodes}
use upgrade_controller.Controller.Os.{
  os_stage, os_plans, reconcile_os_workers, reconcile_os_control_plane, reconcile_os_plans,
  reconcile_os_secret, reconcile_os,
}
use upgrade_controller.Controller.Kubernetes.{
  k8s_stage, kubernetes_plans, target_kubernetes_distribution,
  get_k8s_core_components_upgrade_status, reconcile_core_components, reconcile_kubernetes_workers,
  reconcile_kubernetes_control_plane, reconcile_distribution, reconcile_kubernetes,
}
use upgrade_controller.Controller.Progression.Flags.{SameOwner}

module _ (e : Env) (nodes : List Node) (w : e.World) where
  -- A plan of this key is stored, and the nodes that it selects are upgraded.
  pub record PlanDone (upgraded : List Node → Bool) (key : NamespacedName) : Type 0 where
    pub stored : Plan
    pub selected : List Node
    pub found : e.get_plan key w ≡ ok stored
    pub matching : find_matching_nodes e nodes stored.spec.node_selector ≡ ok selected
    pub nodes_upgraded : upgraded selected ≡ true

  -- The control plane plan is done, and the worker plan where there are workers.
  pub record PlansDone (upgraded : List Node → Bool) (plans : Plan × Plan) : Type 0 where
    pub control_plane : PlanDone upgraded (object_key (plans.0).metadata)
    pub workers :
        (control_plane_only_cluster nodes ≡ true)
        ⊎ ((control_plane_only_cluster nodes ≡ false)
            × PlanDone upgraded (object_key (plans.1).metadata))

  pub record OsDone (owner : UpgradePlan) (version : String) (os : OperatingSystem) : Type 0 where
    pub made : Secret
    pub stored : Secret
    pub generated :
        os_upgrade_secret e.execute_template owner.status.suc_name_suffix os
          (plan_identifier_labels owner.metadata.name owner.metadata.namespace)
        ≡ ok made
    pub found : e.get_secret (object_key made.metadata) w ≡ ok stored
    pub plans :
        PlansDone (λ ns. is_os_upgraded ns os.pretty_name) (os_plans owner version os nodes stored)

  pub record KubernetesDone (owner : UpgradePlan) (kubernetes : Manifest.Kubernetes) : Type 0 where
    pub distro : KubernetesDistribution
    pub target : target_kubernetes_distribution nodes kubernetes ≡ ok distro
    pub plans :
        PlansDone
          (λ ns. is_kubernetes_upgraded ns distro.version)
          (kubernetes_plans owner distro nodes)
    pub components : get_k8s_core_components_upgrade_status e w distro.core_components ≡ ok none

  -- Another plan of the same name and suffix finds the same.
  pub OsDone-SameOwner :
      {p q : UpgradePlan} (version : String) (os : OperatingSystem)
      → SameOwner p q
      → OsDone p version os
      → OsDone q version os
  unfolding os_plans parse_drain_options
  OsDone-SameOwner version os same done = record {
    made = done.made;
    stored = done.stored;
    generated = rw (same.suffix_lem, same.metadata_lem) done.generated;
    found = done.found;
    plans = rw (same.suffix_lem, same.metadata_lem, same.spec_lem) done.plans;
  }

  pub KubernetesDone-SameOwner :
      {p q : UpgradePlan} (kubernetes : Manifest.Kubernetes)
      → SameOwner p q
      → KubernetesDone p kubernetes
      → KubernetesDone q kubernetes
  unfolding kubernetes_plans parse_drain_options
  KubernetesDone-SameOwner kubernetes same done = record {
    distro = done.distro;
    target = done.target;
    plans = rw (same.suffix_lem, same.metadata_lem, same.spec_lem) done.plans;
    components = done.components;
  }

module _ (e : Env) (type : String) where
  -- the state behind a stage that has just succeeded
  abbrev pub succeeded_state : State e.World → State e.World
  succeeded_state s = record s {
    plan = set_successful_condition e.conditions s.plan type "All cluster nodes are upgraded";
  }

  finish_lem : (s : State e.World) → finish e type s ≡ (ok (requeue_if true), succeeded_state s)
  unfolding effects finish
  finish_lem s = refl

  check_nodes-PlanDone :
      (nodes : List Node) (upgraded : List Node → Bool) (key : NamespacedName) (message : String)
      (next : Eff e.World CtrlResult) (s : State e.World)
      (done : PlanDone e nodes s.world upgraded key)
      → check_nodes e type nodes done.stored upgraded message next s ≡ next s
  unfolding effects check_nodes
  check_nodes-PlanDone nodes upgraded key message next s done =
      rw (done.matching, done.nodes_upgraded) refl

module _ (e : Env) (nodes : List Node) (s : State e.World) where
  os_control_plane-PlansDone :
      (os : OperatingSystem) (plans : Plan × Plan)
      (done : PlansDone e nodes s.world (λ ns. is_os_upgraded ns os.pretty_name) plans)
      → reconcile_os_control_plane e os nodes plans.1 done.control_plane.stored s
        ≡ (ok (requeue_if true), succeeded_state e os_stage s)
  unfolding effects reconcile_os_control_plane reconcile_os_workers
  os_control_plane-PlansDone os plans done =
      check_nodes-PlanDone e os_stage nodes _ _ _ _ s done.control_plane ∙ elim done.workers [
        | inl only ↦ rw only (finish_lem e os_stage s)
        | inr (mixed, wp) ↦
            rw (mixed, wp.found)
              (check_nodes-PlanDone e os_stage nodes _ _ _ _ s wp ∙ finish_lem e os_stage s)
      ]

  -- A pass over the OS stage succeeds where the stage is done,
  pub reconcile_os-OsDone :
      (version : String) (os : OperatingSystem)
      → OsDone e nodes s.world s.plan version os
      → reconcile_os e version os nodes s ≡ (ok (requeue_if true), succeeded_state e os_stage s)
  unfolding effects reconcile_os reconcile_os_secret reconcile_os_plans
  reconcile_os-OsDone version os done =
      rw (done.generated, done.found, done.plans.control_plane.found)
        (os_control_plane-PlansDone os _ done.plans)

  components_done :
      (distro : KubernetesDistribution)
      → get_k8s_core_components_upgrade_status e s.world distro.core_components ≡ ok none
      → reconcile_core_components e distro s ≡ (ok (requeue_if true), succeeded_state e k8s_stage s)
  unfolding effects reconcile_core_components
  components_done distro upgraded = rw upgraded (finish_lem e k8s_stage s)

  kubernetes_control_plane-PlansDone :
      (distro : KubernetesDistribution) (plans : Plan × Plan)
      (done : PlansDone e nodes s.world (λ ns. is_kubernetes_upgraded ns distro.version) plans)
      → get_k8s_core_components_upgrade_status e s.world distro.core_components ≡ ok none
      → reconcile_kubernetes_control_plane e distro nodes plans.1 done.control_plane.stored s
        ≡ (ok (requeue_if true), succeeded_state e k8s_stage s)
  unfolding effects reconcile_kubernetes_control_plane reconcile_kubernetes_workers
  kubernetes_control_plane-PlansDone distro plans done upgraded =
      check_nodes-PlanDone e k8s_stage nodes _ _ _ _ s done.control_plane ∙ elim done.workers [
        | inl only ↦ rw only (components_done distro upgraded)
        | inr (mixed, wp) ↦
            rw (mixed, wp.found)
              (check_nodes-PlanDone e k8s_stage nodes _ _ _ _ s wp
                ∙ components_done distro upgraded)
      ]

  -- and so does one over the Kubernetes stage.
  pub reconcile_kubernetes-KubernetesDone :
      (kubernetes : Manifest.Kubernetes)
      → KubernetesDone e nodes s.world s.plan kubernetes
      → reconcile_kubernetes e kubernetes nodes s
        ≡ (ok (requeue_if true), succeeded_state e k8s_stage s)
  unfolding effects reconcile_kubernetes reconcile_distribution
  reconcile_kubernetes-KubernetesDone kubernetes done =
      rw (done.target, done.plans.control_plane.found)
        (kubernetes_control_plane-PlansDone done.distro _ done.plans done.components)
