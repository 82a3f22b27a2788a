-- ===== src/Controller/Os.antt =====
-- `reconcileOS` of reconcile_os.go
pub mod Order
pub mod Success
use upgrade_controller.Prelude.{String, List, if◌then◌else◌}
use upgrade_controller.Errors.{in_context}
use upgrade_controller.Kube.{Node, Secret, Plan, secret, object_key}
use upgrade_controller.Api.UpgradePlan.{UpgradePlan, operating_system_upgraded_condition}
use upgrade_controller.Api.ReleaseManifest.{OperatingSystem}
use upgrade_controller.Upgrade.Base.{plan_identifier_labels}
use upgrade_controller.Upgrade.Os.{os_upgrade_secret, os_control_plane_plan, os_worker_plan}
use upgrade_controller.Controller.Env.{Env}
use upgrade_controller.Controller.Effects.{
  Eff, CtrlResult, no_requeue, pure, lift, if_found, the_plan, create_object, ◌>>=◌, ◌>>◌,
}
use upgrade_controller.Controller.Nodes.{
  parse_drain_options, is_os_upgraded, control_plane_only_cluster,
}
use upgrade_controller.Controller.Stage.{create_in_progress, check_nodes, finish}

abbrev pub os_stage : String
os_stage = operating_system_upgraded_condition

-- the two plans, built with the stored secret's name and one label map
unfoldable pub os_plans : UpgradePlan → String → OperatingSystem → List Node → Secret → Plan × Plan
os_plans owner release_version release_os node_list found_secret =
    let suffix = owner.status.suc_name_suffix in
    let secret_name = found_secret.metadata.name in
    let drains = parse_drain_options node_list owner in
    let built =
      os_control_plane_plan suffix release_version secret_name release_os drains.0
        (plan_identifier_labels owner.metadata.name owner.metadata.namespace) in
    (built.0, (os_worker_plan suffix release_version secret_name release_os drains.1 built.1).0)

module _ (e : Env) where
  open e use {World}

  -- from the worker plan on
  unfoldable pub reconcile_os_workers : OperatingSystem → List Node → Plan → Eff World CtrlResult
  reconcile_os_workers release_os node_list worker_plan =
      if_found (e.get_plan (object_key worker_plan.metadata))
        (create_in_progress e os_stage "Worker nodes are being upgraded" worker_plan)
        λ found.
          check_nodes e os_stage node_list found (λ ns. is_os_upgraded ns release_os.pretty_name)
            "Worker nodes are being upgraded" (finish e os_stage)

  -- behind the lookup of the control plane plan, which found `found`
  unfoldable pub reconcile_os_control_plane :
      OperatingSystem → List Node → Plan → Plan → Eff World CtrlResult
  reconcile_os_control_plane release_os node_list worker_plan found =
      check_nodes e os_stage node_list found (λ ns. is_os_upgraded ns release_os.pretty_name)
        "Control plane nodes are being upgraded"
        (if control_plane_only_cluster node_list
          then finish e os_stage
          else reconcile_os_workers release_os node_list worker_plan)

  unfoldable pub reconcile_os_plans :
      UpgradePlan → String → OperatingSystem → List Node → Secret → Eff World CtrlResult
  reconcile_os_plans owner release_version release_os node_list found_secret =
      let plans = os_plans owner release_version release_os node_list found_secret in
      if_found (e.get_plan (object_key (plans.0).metadata))
        (create_in_progress e os_stage "Control plane nodes are being upgraded" plans.0)
        (reconcile_os_control_plane release_os node_list plans.1)

  -- behind the generation of the secret
  unfoldable pub reconcile_os_secret :
      UpgradePlan → String → OperatingSystem → List Node → Secret → Eff World CtrlResult
  reconcile_os_secret owner release_version release_os node_list new_secret =
      if_found (e.get_secret (object_key new_secret.metadata))
        (create_object e (secret new_secret) >> pure no_requeue)
        (reconcile_os_plans owner release_version release_os node_list)

  unfoldable pub reconcile_os : String → OperatingSystem → List Node → Eff World CtrlResult
  reconcile_os release_version release_os node_list = do
    owner ← the_plan
    new_secret ← lift (
        in_context "generating OS upgrade secret" (
          os_upgrade_secret e.execute_template owner.status.suc_name_suffix release_os
            (plan_identifier_labels owner.metadata.name owner.metadata.namespace)))
    reconcile_os_secret owner release_version release_os node_list new_secret
