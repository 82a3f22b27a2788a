-- ===== src/Controller/Kubernetes.antt =====
-- `reconcileKubernetes` of reconcile_kubernetes.go and what it calls
pub mod Components
pub mod Order
pub mod Success
use upgrade_controller.Prelude.{
  String, ◌++◌, Bool, true, false, Option, none, some, List, [], ◌∷◌, contains, contains_func,
  if◌then◌else◌,
}
use upgrade_controller.Errors.{Result, ok, err, panic, message, wrap, in_context, is_not_found}
use upgrade_controller.Kube.{
  Node, Plan, HelmChartResource, Job, Deployment, NamespacedName, holds, object_key,
}
use upgrade_controller.Api.UpgradePlan.{UpgradePlan, kubernetes_upgraded_condition}
use upgrade_controller.Api.ReleaseManifest as Manifest
use upgrade_controller.Api.ReleaseManifest.{
  KubernetesDistribution, CoreComponent, CoreComponentType, convert_container_slice_to_map,
}
use upgrade_controller.Upgrade.Base.{plan_identifier_labels, kube_system_namespace}
use upgrade_controller.Upgrade.Kubernetes.{kubernetes_control_plane_plan, kubernetes_worker_plan}
use upgrade_controller.Upgrade.Container.{contains_container_images}
use upgrade_controller.Upgrade.Helm.{chart_namespaced_name}
use upgrade_controller.Controller.Env.{Env}
use upgrade_controller.Controller.Releases.{compare_chart_release_with_version}
use upgrade_controller.Controller.Effects.{Eff, CtrlResult, lift, ask, if_found, the_plan, ◌>>=◌}
use upgrade_controller.Controller.Nodes.{
  parse_drain_options, is_kubernetes_upgraded, control_plane_only_cluster,
}
use upgrade_controller.Controller.Stage.{create_in_progress, wait_in_progress, finish, check_nodes}

unfoldable pub target_kubernetes_distribution :
    List Node → Manifest.Kubernetes → Result KubernetesDistribution
target_kubernetes_distribution [] kubernetes =
    err (message "unable to determine current kubernetes distribution due to empty node list")
target_kubernetes_distribution (node ∷ rest) kubernetes =
    if contains node.kubelet_version "k3s"
    then ok kubernetes.k3s
    else if contains node.kubelet_version "rke2"
    then ok kubernetes.rke2
    else err (
        message
          ("unsupported kubernetes distribution detected in version " ++ node.kubelet_version))

-- the key of a chart's job, in the chart's namespace
abbrev chart_job_key : HelmChartResource → NamespacedName
chart_job_key chart = record { namespace = chart.metadata.namespace; name = chart.job_name }

abbrev kube_system_name : String → NamespacedName
kube_system_name name = record { namespace = kube_system_namespace; name = name }

module _ (e : Env) (w : e.World) where
  -- the job of a core component's chart, by what `Get` answered
  unfoldable pub chart_job_upgraded : CoreComponent → HelmChartResource → Result Job → Result Bool
  chart_job_upgraded component chart (ok job) =
      if contains_func (holds "Complete") job.conditions
      then compare_chart_release_with_version e w chart.metadata.name component.version
      else ok false
  chart_job_upgraded component chart (err error) =
      if is_not_found error then ok false else err error
  chart_job_upgraded component chart (panic p) = panic p

  abbrev chart_upgraded : CoreComponent → Result HelmChartResource → Result Bool
  chart_upgraded component (ok chart) =
      chart_job_upgraded component chart (e.get_job (chart_job_key chart) w)
  chart_upgraded component (err error) = err error
  chart_upgraded component (panic p) = panic p

  abbrev deployment_upgraded : CoreComponent → Result Deployment → Result Bool
  deployment_upgraded component (ok dep) =
      if contains_func (holds "Available") dep.conditions
      then ok (
          contains_container_images dep.containers (convert_container_slice_to_map component) false)
      else ok false
  deployment_upgraded component (err error) = err error
  deployment_upgraded component (panic p) = panic p

  -- the `switch` on the component's type
  abbrev upgraded_by_type : CoreComponentType → CoreComponent → Result Bool
  upgraded_by_type CoreComponentType.helm_chart_type component = chart_upgraded component (
      in_context ("getting " ++ component.name ++ " helm chart")
        (e.get_helm_chart (chart_namespaced_name component.name) w))
  upgraded_by_type CoreComponentType.deployment_type component = deployment_upgraded component (
      in_context ("getting " ++ component.name ++ " deployment")
        (e.get_deployment (kube_system_name component.name) w))
  upgraded_by_type (CoreComponentType.other_type t) component =
      err (message ("unsupported component type: " ++ t))

  unfoldable pub is_k8s_core_component_upgraded : CoreComponent → Result Bool
  is_k8s_core_component_upgraded component = upgraded_by_type component.type component

  -- The loop over the components: `none` when all are upgraded, or the name of the first that is
  -- waited for.
  unfoldable pub get_k8s_core_components_upgrade_status :
      List CoreComponent → Result (Option String)
  get_k8s_core_components_upgrade_status [] = ok none
  get_k8s_core_components_upgrade_status (component ∷ rest) =
      let later = get_k8s_core_components_upgrade_status rest in
      elim (is_k8s_core_component_upgraded component) [
        | ok true ↦ later
        | ok false ↦ ok (some component.name)
        | err error ↦
            if is_not_found error
            then later
            else err (wrap ("validating upgrade for component " ++ component.name) error)
        | panic p ↦ panic p
      ]

abbrev pub k8s_stage : String
k8s_stage = kubernetes_upgraded_condition

-- the two plans, built with one label map
unfoldable pub kubernetes_plans : UpgradePlan → KubernetesDistribution → List Node → Plan × Plan
kubernetes_plans owner distro node_list =
    let suffix = owner.status.suc_name_suffix in
    let drains = parse_drain_options node_list owner in
    let built =
      kubernetes_control_plane_plan suffix distro.version drains.0
        (plan_identifier_labels owner.metadata.name owner.metadata.namespace) in
    (built.0, (kubernetes_worker_plan suffix distro.version drains.1 built.1).0)

module _ (e : Env) where
  open e use {World}

  abbrev pub wait_or_finish : Option String → Eff World CtrlResult
  wait_or_finish none = finish e k8s_stage
  wait_or_finish (some waiting_for) =
      wait_in_progress e k8s_stage
        ("Waiting for " ++ waiting_for ++ " core component to be upgraded")

  -- the core components' part of both kinds of cluster
  unfoldable pub reconcile_core_components : KubernetesDistribution → Eff World CtrlResult
  reconcile_core_components distro = do
    waiting_for ← ask (λ w. get_k8s_core_components_upgrade_status e w distro.core_components)
    wait_or_finish waiting_for

  -- from the worker plan on
  unfoldable pub reconcile_kubernetes_workers :
      KubernetesDistribution → List Node → Plan → Eff World CtrlResult
  reconcile_kubernetes_workers distro node_list worker_plan =
      if_found (e.get_plan (object_key worker_plan.metadata))
        (create_in_progress e k8s_stage "Worker nodes are being upgraded" worker_plan)
        λ found.
          check_nodes e k8s_stage node_list found (λ ns. is_kubernetes_upgraded ns distro.version)
            "Worker nodes are being upgraded" (reconcile_core_components distro)

  -- behind the lookup of the control plane plan, which found `found`
  unfoldable pub reconcile_kubernetes_control_plane :
      KubernetesDistribution → List Node → Plan → Plan → Eff World CtrlResult
  reconcile_kubernetes_control_plane distro node_list worker_plan found =
      check_nodes e k8s_stage node_list found (λ ns. is_kubernetes_upgraded ns distro.version)
        "Control plane nodes are being upgraded"
        (if control_plane_only_cluster node_list
          then reconcile_core_components distro
          else reconcile_kubernetes_workers distro node_list worker_plan)

  -- behind the choice of the distribution
  unfoldable pub reconcile_distribution :
      UpgradePlan → List Node → KubernetesDistribution → Eff World CtrlResult
  reconcile_distribution owner node_list distro =
      let plans = kubernetes_plans owner distro node_list in
      if_found (e.get_plan (object_key (plans.0).metadata))
        (create_in_progress e k8s_stage "Control plane nodes are being upgraded" plans.0)
        (reconcile_kubernetes_control_plane distro node_list plans.1)

  unfoldable pub reconcile_kubernetes : Manifest.Kubernetes → List Node → Eff World CtrlResult
  reconcile_kubernetes kubernetes node_list = do
    owner ← the_plan
    distro ← lift (
        in_context "identifying target kubernetes distribution"
          (target_kubernetes_distribution node_list kubernetes))
    reconcile_distribution owner node_list distro
