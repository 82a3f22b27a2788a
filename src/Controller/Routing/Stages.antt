-- ===== src/Controller/Routing/Stages.antt =====
-- The OS and Kubernetes stages create only objects that lead back to the plan.
use upgrade_controller.Prelude.{String, ◌≢◌, refl, List, Bool, Option, none, some}
use upgrade_controller.Errors.{ok_of_in_context}
use upgrade_controller.Kube.{ObjectMeta, Secret, Node, Plan, plan, secret}
use upgrade_controller.Api.UpgradePlan.{UpgradePlan}
use upgrade_controller.Api.ReleaseManifest as Manifest
use upgrade_controller.Api.ReleaseManifest.{OperatingSystem, KubernetesDistribution}
use upgrade_controller.Controller.Env.{Env}
use upgrade_controller.Controller.Effects.{CtrlResult, Eff}
use upgrade_controller.Controller.Effects.Keeps.{
  Keeps, Keeps-pure, Keeps-ask, Keeps-if, Keeps-bind, Keeps-then, Keeps-lift-bind, Keeps-if_found,
}
use upgrade_controller.Controller.Conditions.{set_in_progress_condition, set_successful_condition}
use upgrade_controller.Controller.Nodes.{control_plane_only_cluster}
use upgrade_controller.Controller.Stage.{create_in_progress, wait_in_progress, finish, check_nodes}
use upgrade_controller.Controller.Os.{
  os_stage, reconcile_os_workers, reconcile_os_control_plane, reconcile_os_plans,
  reconcile_os_secret, reconcile_os,
}
use upgrade_controller.Controller.Kubernetes.{
  k8s_stage, wait_or_finish, reconcile_core_components, reconcile_kubernetes_workers,
  reconcile_kubernetes_control_plane, reconcile_distribution, reconcile_kubernetes,
}
use upgrade_controller.Controller.Routing.{
  Placed, Routed, create_object-Routed, change_plan-Routed, the_plan-Routed,
}
use upgrade_controller.Controller.Routing.Labels.{
  os_plans-Placed, kubernetes_plans-Placed, secret-Placed,
}

module _ (e : Env) (m : ObjectMeta) (type : String) where
  create-Routed :
      (message : String) (p : Plan)
      → Placed m p.metadata
      → Keeps (Routed m) (create_in_progress e type message p)
  unfolding create_in_progress set_in_progress_condition
  create-Routed message p leads =
      Keeps-then _ _ (change_plan-Routed e m _ (λ u. refl))
        (Keeps-then _ _ (create_object-Routed e m (plan p) leads) (Keeps-pure _))

  wait-Routed : (message : String) → Keeps (Routed m) (wait_in_progress e type message)
  unfolding wait_in_progress set_in_progress_condition
  wait-Routed message = Keeps-then _ _ (change_plan-Routed e m _ (λ u. refl)) (Keeps-pure _)

  finish-Routed : Keeps (Routed m) (finish e type)
  unfolding finish set_successful_condition
  finish-Routed = Keeps-then _ _ (change_plan-Routed e m _ (λ u. refl)) (Keeps-pure _)

  check_nodes-Routed :
      (nodes : List Node) (found : Plan) (upgraded : List Node → Bool) (message : String)
      (next : Eff e.World CtrlResult)
      → Keeps (Routed m) next
      → Keeps (Routed m) (check_nodes e type nodes found upgraded message next)
  unfolding check_nodes
  check_nodes-Routed nodes found upgraded message next kn =
      Keeps-lift-bind _ _ (λ ns q. Keeps-if _ _ _ kn (wait-Routed message))

module _ (e : Env) (owner : UpgradePlan) (named : owner.metadata.name ≢ "") where
  os_plans-Routed :
      (rv : String) (os : OperatingSystem) (nodes : List Node) (stored : Secret)
      → Keeps (Routed owner.metadata) (reconcile_os_plans e owner rv os nodes stored)
  unfolding reconcile_os_plans reconcile_os_control_plane reconcile_os_workers
  os_plans-Routed rv os nodes stored =
      let m = owner.metadata in
      let (cp, wp) = os_plans-Placed owner named rv os nodes stored in
      Keeps-if_found _ _ _ (create-Routed e m os_stage _ _ cp) λ found.
        check_nodes-Routed e m os_stage nodes found _ _ _ (
          Keeps-if (control_plane_only_cluster nodes) _ _ (finish-Routed e m os_stage) (
            Keeps-if_found _ _ _ (create-Routed e m os_stage _ _ wp) λ found'.
              check_nodes-Routed e m os_stage nodes found' _ _ _ (finish-Routed e m os_stage)))

  components-Routed :
      (distro : KubernetesDistribution)
      → Keeps (Routed owner.metadata) (reconcile_core_components e distro)
  unfolding reconcile_core_components
  components-Routed distro = Keeps-bind _ (wait_or_finish e) (Keeps-ask _) decide
    where
      decide : (o : Option String) → Keeps (Routed owner.metadata) (wait_or_finish e o)
      decide none = finish-Routed e owner.metadata k8s_stage
      decide (some name) = wait-Routed e owner.metadata k8s_stage _

  distribution-Routed :
      (nodes : List Node) (distro : KubernetesDistribution)
      → Keeps (Routed owner.metadata) (reconcile_distribution e owner nodes distro)
  unfolding reconcile_distribution reconcile_kubernetes_control_plane reconcile_kubernetes_workers
  distribution-Routed nodes distro =
      let m = owner.metadata in
      let (cp, wp) = kubernetes_plans-Placed owner named distro nodes in
      Keeps-if_found _ _ _ (create-Routed e m k8s_stage _ _ cp) λ found.
        check_nodes-Routed e m k8s_stage nodes found _ _ _ (
          Keeps-if (control_plane_only_cluster nodes) _ _ (components-Routed distro) (
            Keeps-if_found _ _ _ (create-Routed e m k8s_stage _ _ wp) λ found'.
              check_nodes-Routed e m k8s_stage nodes found' _ _ _ (components-Routed distro)))

  os_secret-Routed :
      (rv : String) (os : OperatingSystem) (nodes : List Node) (made : Secret)
      → Placed owner.metadata made.metadata
      → Keeps (Routed owner.metadata) (reconcile_os_secret e owner rv os nodes made)
  unfolding reconcile_os_secret
  os_secret-Routed rv os nodes made leads =
      Keeps-if_found _ _ _
        (Keeps-then _ _ (create_object-Routed e owner.metadata (secret made) leads) (Keeps-pure _))
        (os_plans-Routed rv os nodes)

module _ (e : Env) (m : ObjectMeta) (named : m.name ≢ "") where
  pub os-Routed :
      (rv : String) (os : OperatingSystem) (nodes : List Node)
      → Keeps (Routed m) (reconcile_os e rv os nodes)
  unfolding reconcile_os
  os-Routed rv os nodes = the_plan-Routed e m _ λ owner same. rw (← same) (
      Keeps-lift-bind _ _ λ made q. os_secret-Routed e owner (rw same named) rv os nodes made (
        secret-Placed owner (rw same named) e.execute_template owner.status.suc_name_suffix os made
          (ok_of_in_context _ _ q)))

  pub kubernetes-Routed :
      (kubernetes : Manifest.Kubernetes) (nodes : List Node)
      → Keeps (Routed m) (reconcile_kubernetes e kubernetes nodes)
  unfolding reconcile_kubernetes
  kubernetes-Routed kubernetes nodes = the_plan-Routed e m _ λ owner same.
      rw (← same)
        (Keeps-lift-bind _ _ λ distro q. distribution-Routed e owner (rw same named) nodes distro)
