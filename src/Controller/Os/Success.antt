-- ===== src/Controller/Os/Success.antt =====
-- When the OS stage succeeds.
use upgrade_controller.Prelude.{
  String, ◌≡◌, ◌∙◌, refl, some, true, false, List, arith, keep, Bool-cases, inl, inr, if◌then◌else◌,
}
use upgrade_controller.Errors.{in_context}
use upgrade_controller.Kube.{Node, Secret, Plan, secret, object_key}
use upgrade_controller.Api.UpgradePlan.{UpgradePlan}
use upgrade_controller.Api.ReleaseManifest.{OperatingSystem}
use upgrade_controller.Upgrade.Base.{
  plan_identifier_labels, control_plane_selector, worker_selector,
}
use upgrade_controller.Upgrade.Os.{os_upgrade_secret}
use upgrade_controller.Controller.Env.{Env}
use upgrade_controller.Controller.Effects.{effects, State, create_object, pure, no_requeue, ◌>>◌}
use upgrade_controller.Controller.Effects.Changes.{plan-create_object}
use upgrade_controller.Controller.Effects.Rules.{if_found_rule, lift_rule}
use upgrade_controller.Controller.Nodes.{
  is_control_plane, is_os_upgraded, control_plane_only_cluster,
}
use upgrade_controller.Controller.Nodes.Selection.{
  SelectorLaws, KeepsSelector, control_planes-eq, workers-eq,
}
use upgrade_controller.Controller.Nodes.Upgraded.{
  AllOnOs, IsReadyOn, is_os_upgraded_iff, All_of_roles, keep-control_plane_only,
}
use upgrade_controller.Controller.Stage.{create_in_progress, wait_in_progress, finish, check_nodes}
use upgrade_controller.Controller.Stage.Progress.{
  Progress, create_in_progress-Progress, Done_of_Progress,
}
use upgrade_controller.Controller.Stage.Rules.{check_nodes_rule}
use upgrade_controller.Controller.Conditions.Laws.{ConditionLaws, has_true}
use upgrade_controller.Controller.Os.{
  os_stage, reconcile_os_workers, reconcile_os_control_plane, os_plans, reconcile_os_plans,
  reconcile_os_secret, reconcile_os,
}
use upgrade_controller.Controller.Os.Order.{os_plans_selectors}

-- Both plans that are stored have the selectors that the controller gave them.
abbrev pub KeepSelectors : (e : Env) → OperatingSystem → List Node → State e.World → String → Type 0
KeepSelectors e os nodes s rv =
    (stored : Secret)
    → KeepsSelector e s.world (os_plans s.plan rv os nodes stored).0
      × KeepsSelector e s.world (os_plans s.plan rv os nodes stored).1

module _ (e : Env) (laws : SelectorLaws e) (os : OperatingSystem) (nodes : List Node)
    (s : State e.World) where
  abbrev OsProgress : UpgradePlan → Type 0
  OsProgress after = Progress e.conditions os_stage (AllOnOs os.pretty_name nodes) s.plan after

  finish_progress : AllOnOs os.pretty_name nodes → OsProgress (finish e os_stage s).1.plan
  unfolding effects finish
  finish_progress done = Progress.successful "All cluster nodes are upgraded" refl done

  wait_progress : (message : String) → OsProgress (wait_in_progress e os_stage message s).1.plan
  unfolding effects wait_in_progress
  wait_progress message = Progress.in_progress message refl

  workers_progress :
      (wp : Plan)
      → wp.spec.node_selector ≡ some worker_selector
      → KeepsSelector e s.world wp
      → AllOnOs os.pretty_name (keep is_control_plane nodes)
      → OsProgress (reconcile_os_workers e os nodes wp s).1.plan
  unfolding effects reconcile_os_workers
  workers_progress wp selector keeps ready =
      if_found_rule (λ r. OsProgress r.1.plan) (e.get_plan (object_key wp.metadata))
        (create_in_progress e os_stage "Worker nodes are being upgraded" wp)
        (λ found.
          check_nodes e os_stage nodes found (λ ns. is_os_upgraded ns os.pretty_name)
            "Worker nodes are being upgraded" (finish e os_stage))
        s
        (λ error q missing.
          create_in_progress-Progress e os_stage "Worker nodes are being upgraded" s wp)
        (λ found q.
          check_nodes_rule e os_stage (λ r. OsProgress r.1.plan) nodes found
            (λ ns. is_os_upgraded ns os.pretty_name) "Worker nodes are being upgraded"
            (finish e os_stage) s
            (λ ns found_ns pass. finish_progress (
              All_of_roles (IsReadyOn (λ node. node.os_image) os.pretty_name) nodes ready (
                rw
                  (workers-eq e laws nodes found.spec.node_selector ns (keeps found q ∙ selector)
                    found_ns)
                  ((is_os_upgraded_iff ns os.pretty_name).0 pass))))
            (wait_progress "Worker nodes are being upgraded") (λ error. Progress.kept refl)
            (λ p. Progress.kept refl))
        (λ error. Progress.kept refl) (λ p. Progress.kept refl)

  control_plane_progress :
      (wp found : Plan)
      → found.spec.node_selector ≡ some control_plane_selector
      → wp.spec.node_selector ≡ some worker_selector
      → KeepsSelector e s.world wp
      → OsProgress (reconcile_os_control_plane e os nodes wp found s).1.plan
  unfolding effects reconcile_os_control_plane
  control_plane_progress wp found selector wp_selector keeps =
      check_nodes_rule e os_stage (λ r. OsProgress r.1.plan) nodes found
        (λ ns. is_os_upgraded ns os.pretty_name) "Control plane nodes are being upgraded"
        (if control_plane_only_cluster nodes
          then finish e os_stage
          else reconcile_os_workers e os nodes wp)
        s
        (λ ns found_ns pass.
          let ready : AllOnOs os.pretty_name (keep is_control_plane nodes) =
            rw (control_planes-eq e laws nodes found.spec.node_selector ns selector found_ns)
              ((is_os_upgraded_iff ns os.pretty_name).0 pass) in
          elim (Bool-cases (control_plane_only_cluster nodes)) [
            | inl only ↦
                rw only (finish_progress (rw (keep-control_plane_only nodes only) at ready))
            | inr mixed ↦ rw mixed (workers_progress wp wp_selector keeps ready)
          ])
        (wait_progress "Control plane nodes are being upgraded") (λ error. Progress.kept refl)
        (λ p. Progress.kept refl)

  plans_progress :
      (rv : String) (stored : Secret)
      → KeepSelectors e os nodes s rv
      → OsProgress (reconcile_os_plans e s.plan rv os nodes stored s).1.plan
  unfolding effects reconcile_os_plans
  plans_progress rv stored keeps =
      let plans = os_plans s.plan rv os nodes stored in
      let (cp_selector, wp_selector) = os_plans_selectors s.plan rv os nodes stored in
      if_found_rule (λ r. OsProgress r.1.plan) (e.get_plan (object_key (plans.0).metadata))
        (create_in_progress e os_stage "Control plane nodes are being upgraded" plans.0)
        (reconcile_os_control_plane e os nodes plans.1) s
        (λ error q missing.
          create_in_progress-Progress e os_stage "Control plane nodes are being upgraded" s plans.0)
        (λ found q.
          control_plane_progress plans.1 found ((keeps stored).0 found q ∙ cp_selector) wp_selector
            (keeps stored).1)
        (λ error. Progress.kept refl) (λ p. Progress.kept refl)

  secret_progress :
      (rv : String) (made : Secret)
      → KeepSelectors e os nodes s rv
      → OsProgress (reconcile_os_secret e s.plan rv os nodes made s).1.plan
  unfolding effects reconcile_os_secret
  secret_progress rv made keeps =
      if_found_rule (λ r. OsProgress r.1.plan) (e.get_secret (object_key made.metadata))
        (create_object e (secret made) >> pure no_requeue) (reconcile_os_plans e s.plan rv os nodes)
        s (λ error q missing. Progress.kept (ground (arith, plan-create_object e (secret made) s)))
        (λ stored q. plans_progress rv stored keeps) (λ error. Progress.kept refl)
        (λ p. Progress.kept refl)

  pub os_progress :
      (rv : String)
      → KeepSelectors e os nodes s rv
      → OsProgress (reconcile_os e rv os nodes s).1.plan
  unfolding effects reconcile_os
  os_progress rv keeps =
      lift_rule (λ r. OsProgress r.1.plan)
        (in_context "generating OS upgrade secret" (
          os_upgrade_secret e.execute_template s.plan.status.suc_name_suffix os
            (plan_identifier_labels s.plan.metadata.name s.plan.metadata.namespace)))
        (reconcile_os_secret e s.plan rv os nodes) s (λ made q. secret_progress rv made keeps)
        (λ error. Progress.kept refl) (λ p. Progress.kept refl)

-- When a pass over the OS stage turns the plan's OSUpgraded condition true, every node of the list
-- is ready, schedulable and on the release's OS image. It is assumed that conditions and selectors
-- work as Kubernetes documents, and that the stored plans have the selectors that the controller
-- gave them.
pub reconcile_os_success :
    (e : Env) (conditions : ConditionLaws e.conditions) (selectors : SelectorLaws e) (rv : String)
    (os : OperatingSystem) (nodes : List Node) (s : State e.World)
    → KeepSelectors e os nodes s rv
    → has_true e.conditions s.plan os_stage ≡ false
    → has_true e.conditions (reconcile_os e rv os nodes s).1.plan os_stage ≡ true
    → AllOnOs os.pretty_name nodes
reconcile_os_success e conditions selectors rv os nodes s keeps before after =
    Done_of_Progress e.conditions conditions os_stage (os_progress e selectors os nodes s rv keeps)
      before after
