-- ===== src/Controller/Frame/Stages.antt =====
-- A pass over the OS or the Kubernetes stage changes only the stage's condition in the plan.
use upgrade_controller.Prelude.{String, List, Bool, Option, none, some}
use upgrade_controller.Kube.{Node, Plan, Secret}
use upgrade_controller.Api.UpgradePlan.{UpgradePlan}
use upgrade_controller.Api.ReleaseManifest as Manifest
use upgrade_controller.Api.ReleaseManifest.{OperatingSystem, KubernetesDistribution}
use upgrade_controller.Controller.Env.{Env}
use upgrade_controller.Controller.Effects.{CtrlResult, Eff}
use upgrade_controller.Controller.Effects.Keeps.{
  Keeps, Keeps-pure, Keeps-ask, Keeps-if, Keeps-bind, Keeps-then, Keeps-lift-bind, Keeps-if_found,
}
use upgrade_controller.Controller.Conditions.{set_in_progress_condition, set_successful_condition}
use upgrade_controller.Controller.Nodes.{control_plane_only_cluster}
use upgrade_controller.Controller.Stage.{create_in_progress, wait_in_progress, finish, check_nodes}
use upgrade_controller.Controller.Os.{
  os_stage, reconcile_os_workers, reconcile_os_control_plane, reconcile_os_plans,
  reconcile_os_secret, reconcile_os,
}
use upgrade_controller.Controller.Kubernetes.{
  k8s_stage, wait_or_finish, reconcile_core_components, reconcile_kubernetes_workers,
  reconcile_kubernetes_control_plane, reconcile_distribution, reconcile_kubernetes,
}
use upgrade_controller.Controller.Frame.{
  OnPlan, ConditionFrame, the_plan-OnPlan, change-OnPlan, create-OnPlan,
}

module _ (e : Env) {P : UpgradePlan → Type 0} {type : String}
    (frame : ConditionFrame e.conditions type P) where
  create_in_progress-OnPlan :
      (message : String) (p : Plan) → Keeps (OnPlan P) (create_in_progress e type message p)
  unfolding create_in_progress set_in_progress_condition
  create_in_progress-OnPlan message p =
      Keeps-then _ _ (change-OnPlan _ λ u. frame.kept _ _ u _)
        (Keeps-then _ _ (create-OnPlan e _) (Keeps-pure _))

  wait-OnPlan : (message : String) → Keeps (OnPlan P) (wait_in_progress e type message)
  unfolding wait_in_progress set_in_progress_condition
  wait-OnPlan message = Keeps-then _ _ (change-OnPlan _ λ u. frame.kept _ _ u _) (Keeps-pure _)

  finish-OnPlan : Keeps (OnPlan P) (finish e type)
  unfolding finish set_successful_condition
  finish-OnPlan = Keeps-then _ _ (change-OnPlan _ λ u. frame.kept _ _ u _) (Keeps-pure _)

  check_nodes-OnPlan :
      (nodes : List Node) (found : Plan) (upgraded : List Node → Bool) (message : String)
      (next : Eff e.World CtrlResult)
      → Keeps (OnPlan P) next
      → Keeps (OnPlan P) (check_nodes e type nodes found upgraded message next)
  unfolding check_nodes
  check_nodes-OnPlan nodes found upgraded message next kn =
      Keeps-lift-bind _ _ (λ ns q. Keeps-if _ _ _ kn (wait-OnPlan message))

module _ (e : Env) {P : UpgradePlan → Type 0} (frame : ConditionFrame e.conditions os_stage P) where
  os_plans-OnPlan :
      (owner : UpgradePlan) (version : String) (os : OperatingSystem) (nodes : List Node)
      (stored : Secret)
      → Keeps (OnPlan P) (reconcile_os_plans e owner version os nodes stored)
  unfolding reconcile_os_plans reconcile_os_control_plane reconcile_os_workers
  os_plans-OnPlan owner version os nodes stored =
      Keeps-if_found _ _ _ (create_in_progress-OnPlan e frame _ _) λ found.
        check_nodes-OnPlan e frame nodes found _ _ _ (
          Keeps-if (control_plane_only_cluster nodes) _ _ (finish-OnPlan e frame) (
            Keeps-if_found _ _ _ (create_in_progress-OnPlan e frame _ _)
              λ workers. check_nodes-OnPlan e frame nodes workers _ _ _ (finish-OnPlan e frame)))

  pub reconcile_os-OnPlan :
      (version : String) (os : OperatingSystem) (nodes : List Node)
      → Keeps (OnPlan P) (reconcile_os e version os nodes)
  unfolding reconcile_os reconcile_os_secret
  reconcile_os-OnPlan version os nodes = Keeps-bind _ _ the_plan-OnPlan λ owner.
      Keeps-lift-bind _ _ λ made q.
        Keeps-if_found _ _ _ (Keeps-then _ _ (create-OnPlan e _) (Keeps-pure _))
          (os_plans-OnPlan owner version os nodes)

module _ (e : Env) {P : UpgradePlan → Type 0}
    (frame : ConditionFrame e.conditions k8s_stage P) where
  components-OnPlan :
      (distro : KubernetesDistribution) → Keeps (OnPlan P) (reconcile_core_components e distro)
  unfolding reconcile_core_components
  components-OnPlan distro = Keeps-bind _ (wait_or_finish e) (Keeps-ask _) decide
    where
      decide : (o : Option String) → Keeps (OnPlan P) (wait_or_finish e o)
      decide none = finish-OnPlan e frame
      decide (some name) = wait-OnPlan e frame _

  distribution-OnPlan :
      (owner : UpgradePlan) (nodes : List Node) (distro : KubernetesDistribution)
      → Keeps (OnPlan P) (reconcile_distribution e owner nodes distro)
  unfolding reconcile_distribution reconcile_kubernetes_control_plane reconcile_kubernetes_workers
  distribution-OnPlan owner nodes distro =
      Keeps-if_found _ _ _ (create_in_progress-OnPlan e frame _ _) λ found.
        check_nodes-OnPlan e frame nodes found _ _ _ (
          Keeps-if (control_plane_only_cluster nodes) _ _ (components-OnPlan distro) (
            Keeps-if_found _ _ _ (create_in_progress-OnPlan e frame _ _)
              λ workers. check_nodes-OnPlan e frame nodes workers _ _ _ (components-OnPlan distro)))

  pub reconcile_kubernetes-OnPlan :
      (kubernetes : Manifest.Kubernetes) (nodes : List Node)
      → Keeps (OnPlan P) (reconcile_kubernetes e kubernetes nodes)
  unfolding reconcile_kubernetes
  reconcile_kubernetes-OnPlan kubernetes nodes =
      Keeps-bind _ _ the_plan-OnPlan
        λ owner. Keeps-lift-bind _ _ (λ distro q. distribution-OnPlan owner nodes distro)
