-- ===== src/Controller/Progression/Requeue/Stages.antt =====
-- Where the OS or the Kubernetes stage asks to be run again at once, it has succeeded.
use upgrade_controller.Prelude.{
  String, List, Bool, Option, none, some, ◌≡◌, true, ◌∙◌, arith, eq_iff,
}
use upgrade_controller.Kube.{Node, Plan, Secret, condition_true}
use upgrade_controller.Api.UpgradePlan.{UpgradePlan, upgrade_succeeded}
use upgrade_controller.Api.ReleaseManifest as Manifest
use upgrade_controller.Api.ReleaseManifest.{OperatingSystem, KubernetesDistribution}
use upgrade_controller.Controller.Env.{Env}
use upgrade_controller.Controller.Effects.{CtrlResult, Eff}
use upgrade_controller.Controller.Conditions.{set_successful_condition}
use upgrade_controller.Controller.Conditions.Laws.{ConditionLaws, has_true, has_true-set_condition}
use upgrade_controller.Controller.Nodes.{control_plane_only_cluster}
use upgrade_controller.Controller.Stage.{create_in_progress, wait_in_progress, finish, check_nodes}
use upgrade_controller.Controller.Os.{
  os_stage, reconcile_os_workers, reconcile_os_control_plane, reconcile_os_plans,
  reconcile_os_secret, reconcile_os,
}
use upgrade_controller.Controller.Kubernetes.{
  k8s_stage, wait_or_finish, reconcile_core_components, reconcile_kubernetes_workers,
  reconcile_kubernetes_control_plane, reconcile_distribution, reconcile_kubernetes,
}
use upgrade_controller.Controller.Progression.Requeue.{
  Requeues, Requeues-no_requeue, Requeues-after_minute, Requeues-change, Requeues-if, Requeues-bind,
  Requeues-if_found,
}

module _ (e : Env) (laws : ConditionLaws e.conditions) where
  module _ (type : String) where
    -- The condition of the stage is true.
    abbrev pub StageTrue : UpgradePlan → Type 0
    StageTrue p = has_true e.conditions p type ≡ true

    create-Requeues :
        (message : String) (p : Plan) → Requeues StageTrue (create_in_progress e type message p)
    unfolding create_in_progress
    create-Requeues message p = Requeues-bind _ _ λ u. Requeues-bind _ _ (λ v. Requeues-no_requeue)

    wait-Requeues : (message : String) → Requeues StageTrue (wait_in_progress e type message)
    unfolding wait_in_progress
    wait-Requeues message = Requeues-bind _ _ (λ u. Requeues-after_minute)

    finish-Requeues : Requeues StageTrue (finish e type)
    unfolding finish set_successful_condition
    finish-Requeues = Requeues-change _ true λ p asked.
        has_true-set_condition e.conditions laws p condition_true upgrade_succeeded type _ type
        ∙ ground (arith, eq_iff type type)

    check_nodes-Requeues :
        (nodes : List Node) (found : Plan) (upgraded : List Node → Bool) (message : String)
        (next : Eff e.World CtrlResult)
        → Requeues StageTrue next
        → Requeues StageTrue (check_nodes e type nodes found upgraded message next)
    unfolding check_nodes
    check_nodes-Requeues nodes found upgraded message next rn =
        Requeues-bind _ _ (λ ns. Requeues-if _ _ _ rn (wait-Requeues message))

  os_plans-Requeues :
      (owner : UpgradePlan) (version : String) (os : OperatingSystem) (nodes : List Node)
      (stored : Secret)
      → Requeues (StageTrue os_stage) (reconcile_os_plans e owner version os nodes stored)
  unfolding reconcile_os_plans reconcile_os_control_plane reconcile_os_workers
  os_plans-Requeues owner version os nodes stored =
      Requeues-if_found _ _ _ (create-Requeues os_stage _ _) λ found.
        check_nodes-Requeues os_stage nodes found _ _ _ (
          Requeues-if (control_plane_only_cluster nodes) _ _ (finish-Requeues os_stage) (
            Requeues-if_found _ _ _ (create-Requeues os_stage _ _) λ workers.
              check_nodes-Requeues os_stage nodes workers _ _ _ (finish-Requeues os_stage)))

  pub reconcile_os-Requeues :
      (version : String) (os : OperatingSystem) (nodes : List Node)
      → Requeues (StageTrue os_stage) (reconcile_os e version os nodes)
  unfolding reconcile_os reconcile_os_secret
  reconcile_os-Requeues version os nodes = Requeues-bind _ _ λ owner. Requeues-bind _ _ λ made.
      Requeues-if_found _ _ _ (Requeues-bind _ _ (λ u. Requeues-no_requeue))
        (os_plans-Requeues owner version os nodes)

  components-Requeues :
      (distro : KubernetesDistribution)
      → Requeues (StageTrue k8s_stage) (reconcile_core_components e distro)
  unfolding reconcile_core_components
  components-Requeues distro = Requeues-bind _ (wait_or_finish e) decide
    where
      decide : (o : Option String) → Requeues (StageTrue k8s_stage) (wait_or_finish e o)
      decide none = finish-Requeues k8s_stage
      decide (some name) = wait-Requeues k8s_stage _

  distribution-Requeues :
      (owner : UpgradePlan) (nodes : List Node) (distro : KubernetesDistribution)
      → Requeues (StageTrue k8s_stage) (reconcile_distribution e owner nodes distro)
  unfolding reconcile_distribution reconcile_kubernetes_control_plane reconcile_kubernetes_workers
  distribution-Requeues owner nodes distro =
      Requeues-if_found _ _ _ (create-Requeues k8s_stage _ _) λ found.
        check_nodes-Requeues k8s_stage nodes found _ _ _ (
          Requeues-if (control_plane_only_cluster nodes) _ _ (components-Requeues distro) (
            Requeues-if_found _ _ _ (create-Requeues k8s_stage _ _) λ workers.
              check_nodes-Requeues k8s_stage nodes workers _ _ _ (components-Requeues distro)))

  pub reconcile_kubernetes-Requeues :
      (kubernetes : Manifest.Kubernetes) (nodes : List Node)
      → Requeues (StageTrue k8s_stage) (reconcile_kubernetes e kubernetes nodes)
  unfolding reconcile_kubernetes
  reconcile_kubernetes-Requeues kubernetes nodes =
      Requeues-bind _ _
        λ owner. Requeues-bind _ _ (λ distro. distribution-Requeues owner nodes distro)
