-- ===== src/Tests/Stages.antt =====
-- The OS and the Kubernetes stage on the sample cluster.
use upgrade_controller.Prelude.{
  ◌↔◌, ◌⊎◌, ◌<◌, All, neq_of_test, String, ◌≡◌, refl, sym, ap, ◌∙◌, Bool, true, false, not, keep,
  Option, none, some, List, [], ◌∷◌, ltb,
}
use upgrade_controller.Errors.{ok}
use upgrade_controller.Kube.{Plan, LabelSelector}
use upgrade_controller.Upgrade.Base.{
  control_plane_selector, worker_selector, base_upgrade_plan, plan_identifier_labels,
}
use upgrade_controller.Upgrade.Os.{
  os_plan_name, os_secret_name, os_upgrade_secret, base_os_plan, os_control_plane_plan,
  os_worker_plan,
}
use upgrade_controller.Upgrade.Kubernetes.{
  kubernetes_plan_name, kubernetes_control_plane_plan, kubernetes_worker_plan,
}
use upgrade_controller.Prelude as P
use upgrade_controller.Upgrade.Container as U
use upgrade_controller.Api.ReleaseManifest as A
use upgrade_controller.Controller.Effects.{effects, create_object, requeue_if}
use upgrade_controller.Controller.Effects.Changes.{changes}
use upgrade_controller.Controller.Nodes as N
use upgrade_controller.Controller.Nodes.{parse_drain_options}
use upgrade_controller.Controller.Nodes.Drain.{
  control_planes, workers, disables_control_plane, disables_worker, parse_drain_options_iff,
}
use upgrade_controller.Controller.Kubernetes.Components.{
  IsUpgradedOrAbsent, no_waiting_iff, IsFirstWaiting, waiting-IsFirstWaiting,
}
use upgrade_controller.Controller.Reconcile.{observe_generation}
use upgrade_controller.Controller.Reconcile.Generation.{Restarted, observe_generation-Restarted}
use upgrade_controller.Controller.Nodes.Upgraded.{AllOnOs}
use upgrade_controller.Controller.Conditions as C
use upgrade_controller.Controller.Stage as St
use upgrade_controller.Controller.Kubernetes as K
use upgrade_controller.Controller.Kubernetes.{
  reconcile_kubernetes, kubernetes_plans, get_k8s_core_components_upgrade_status,
}
use upgrade_controller.Controller.Kubernetes.Order.{
  KubernetesPass, reconcile_kubernetes-KubernetesPass,
}
use upgrade_controller.Controller.Kubernetes.Success as Kubernetes
use upgrade_controller.Controller.Kubernetes.Success.{IsUpgraded, reconcile_kubernetes_success}
use upgrade_controller.Controller.Os as Os
use upgrade_controller.Controller.Os.{os_stage, os_plans, reconcile_os}
use upgrade_controller.Controller.Os.Order.{OsPass, reconcile_os-OsPass}
use upgrade_controller.Controller.Os.Success.{KeepSelectors, reconcile_os_success}
use upgrade_controller.Tests.Library.{
  sample_conditions, sample_conditions-ConditionLaws, set_status_condition, find_status_condition,
}
use upgrade_controller.Tests.Cluster.{Cluster, sample_env, sample_env-SelectorLaws}
use upgrade_controller.Tests.Samples.{
  sample_plan, sample_os, sample_kubernetes, sample_nodes, state_of, sample_cluster, sample_chart,
  distribution, core_components, coredns,
}

-- what is unfolded to run the stages
unfoldable pub runs : Unit {0}
unfolding effects create_object os_plan_name os_secret_name os_upgrade_secret base_os_plan
    os_control_plane_plan os_worker_plan kubernetes_plan_name kubernetes_control_plane_plan
    kubernetes_worker_plan base_upgrade_plan plan_identifier_labels control_plane_selector
    worker_selector P.replace_chars P.dots_to_dashes P.to_lower P.lookup P.insert P.contains
    P.cut_prefix P.join_path N.is_control_plane N.count_nodes N.drain_by_counts N.disable_drains
    N.parse_drain_options N.find_matching_nodes N.is_os_upgraded N.is_kubernetes_upgraded
    N.control_plane_only_cluster N.node_ready_status N.is_settled C.set_condition
    C.set_in_progress_condition C.set_successful_condition St.create_in_progress St.wait_in_progress
    St.finish St.check_nodes Os.os_plans Os.reconcile_os_workers Os.reconcile_os_control_plane
    Os.reconcile_os_plans Os.reconcile_os_secret Os.reconcile_os P.encode_hex P.hex_digit
    A.add_containers A.convert_container_slice_to_map U.count_containers U.contains_container_images
    K.chart_job_upgraded K.is_k8s_core_component_upgraded K.target_kubernetes_distribution
    K.kubernetes_plans K.get_k8s_core_components_upgrade_status K.reconcile_core_components
    K.reconcile_kubernetes_workers K.reconcile_kubernetes_control_plane K.reconcile_distribution
    K.reconcile_kubernetes set_status_condition find_status_condition
runs = tt

stored_selector :
    (p : Plan) {found : Plan} {s : Option LabelSelector}
    → ok p ≡ ok found
    → p.spec.node_selector ≡ s
    → found.spec.node_selector ≡ s
stored_selector p q h = cc

os_selectors : KeepSelectors sample_env sample_os sample_nodes (state_of sample_plan) "3.1.0"
unfolding runs
os_selectors stored = (λ found q. stored_selector _ q refl, λ found q. stored_selector _ q refl)

reconcile_os_success_example : AllOnOs "SUSE Linux Micro 6.1" sample_nodes
unfolding runs
reconcile_os_success_example =
    reconcile_os_success sample_env sample_conditions-ConditionLaws sample_env-SelectorLaws "3.1.0"
      sample_os sample_nodes (state_of sample_plan) os_selectors refl refl

reconcile_os-OsPass_example : OsPass sample_os sample_nodes [] (
    changes (reconcile_os sample_env "3.1.0" sample_os sample_nodes (state_of sample_plan)).1.trace)
reconcile_os-OsPass_example =
    reconcile_os-OsPass sample_env sample_env-SelectorLaws "3.1.0" sample_os sample_nodes
      (state_of sample_plan) (λ stored. (os_selectors stored).0)

k8s_selectors :
    Kubernetes.KeepSelectors sample_env sample_kubernetes sample_nodes (state_of sample_plan)
unfolding runs
k8s_selectors distro target =
    let same : distribution "v1.30.3+k3s1" ≡ distro = cc in
    rw (← same) (λ found q. stored_selector _ q refl, λ found q. stored_selector _ q refl)

reconcile_kubernetes_success_example :
    IsUpgraded sample_env sample_cluster sample_kubernetes sample_nodes
unfolding runs
reconcile_kubernetes_success_example =
    reconcile_kubernetes_success sample_env sample_conditions-ConditionLaws sample_env-SelectorLaws
      sample_kubernetes sample_nodes (state_of sample_plan) k8s_selectors refl refl

reconcile_kubernetes-KubernetesPass_example : KubernetesPass sample_kubernetes sample_nodes [] (
    changes
      (reconcile_kubernetes sample_env sample_kubernetes sample_nodes
        (state_of sample_plan)).1.trace)
reconcile_kubernetes-KubernetesPass_example =
    reconcile_kubernetes-KubernetesPass sample_env sample_env-SelectorLaws sample_kubernetes
      sample_nodes (state_of sample_plan) (λ distro target. (k8s_selectors distro target).0)

no_waiting_iff_example :
    (get_k8s_core_components_upgrade_status sample_env sample_cluster core_components ≡ ok none)
    ↔ All (IsUpgradedOrAbsent sample_env sample_cluster) core_components
no_waiting_iff_example = no_waiting_iff sample_env sample_cluster core_components

observe_generation-Restarted_example :
    ((observe_generation sample_env (sample_chart ∷ []) (state_of sample_plan)).0
      ≡ ok (requeue_if true))
    × ((observe_generation sample_env (sample_chart ∷ []) (state_of sample_plan)).1.trace ≡ [])
    × Restarted sample_conditions
        (sample_chart ∷ [])
        "0123456789"
        sample_plan
        (observe_generation sample_env (sample_chart ∷ []) (state_of sample_plan)).1.plan
unfolding P.encode_hex P.hex_digit
observe_generation-Restarted_example =
    observe_generation-Restarted sample_env sample_conditions-ConditionLaws (sample_chart ∷ [])
      (state_of sample_plan) (1 ∷ 35 ∷ 69 ∷ 103 ∷ 137 ∷ []) sample_cluster refl
      (neq_of_test "0123456789" "abc" refl)

parse_drain_options_iff_example :
    ((parse_drain_options sample_nodes sample_plan).0 ≡ true ↔ (
      ((1 < control_planes sample_nodes)
        ⊎ ((control_planes sample_nodes ≡ 0) × (1 < workers sample_nodes)))
      × (disables_control_plane none ≡ false)))
    × ((parse_drain_options sample_nodes sample_plan).1 ≡ true
        ↔ ((1 < workers sample_nodes) × (disables_worker none ≡ false)))
parse_drain_options_iff_example = parse_drain_options_iff sample_nodes sample_plan

-- the cluster before its DNS is upgraded
abbrev outdated_cluster : Cluster
outdated_cluster = record sample_cluster {
  deployments = ("coredns", record coredns { conditions = [] }) ∷ [];
}

waiting-IsFirstWaiting_example :
    IsFirstWaiting sample_env outdated_cluster "coredns" core_components
unfolding runs
waiting-IsFirstWaiting_example =
    waiting-IsFirstWaiting sample_env outdated_cluster core_components "coredns" refl
