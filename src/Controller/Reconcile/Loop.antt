-- ===== src/Controller/Reconcile/Loop.antt =====
-- `Reconcile` of upgradeplan_controller.go
use upgrade_controller.Prelude.{String, true, Option, none, some, List, [], if◌then◌else◌}
use upgrade_controller.Errors.{
  Result, ok, err, panic, Error, is_not_found, is_upgrade_in_progress, join_errors,
}
use upgrade_controller.Kube.{NamespacedName, is_zero}
use upgrade_controller.Api.UpgradePlan.{UpgradePlan, upgrade_plan_finalizer}
use upgrade_controller.Controller.Env.{Env}
use upgrade_controller.Controller.Effects.{
  Call, updated_plan, updated_status, State, CtrlResult, no_requeue, requeue_if, act,
}
use upgrade_controller.Controller.Reconcile.{reconcile_delete, reconcile_normal}

-- What `Reconcile` returns to controller-runtime: a result and an error, or a panic.
pub data Return : Type 0 where
  returned : CtrlResult → Option Error → Return
  panicked : String → Return

abbrev pub update_return : CtrlResult → Option Error → Result (Unit {0}) → Return
update_return result before (ok u) = returned result before
update_return result before (err error) = returned result (join_errors before (some error))
update_return result before (panic p) = panicked p

module _ (e : Env) where
  open e use {World}

  -- `r.Update(ctx, plan)` as the last call
  unfoldable pub update_plan :
      CtrlResult → (UpgradePlan → UpgradePlan) → State World → Return × State World
  update_plan result change s =
      let s' = record s { plan = change s.plan } in
      let (r, s'') = act (updated_plan s'.plan) (e.update_upgrade_plan s'.plan) s' in
      (update_return result none r, s'')

  abbrev pub set_finalizers : (List String → String → List String) → UpgradePlan → UpgradePlan
  set_finalizers f plan = record plan {
    metadata = record (plan.metadata) {
      finalizers = f plan.metadata.finalizers upgrade_plan_finalizer;
    };
  }

  -- by what `reconcileDelete` answered
  unfoldable pub after_delete : Result (Unit {0}) × State World → Return × State World
  unfolding update_plan
  after_delete (ok u, s) = update_plan no_requeue (set_finalizers e.finalizers.remove_finalizer) s
  after_delete (err error, s) =
      if is_upgrade_in_progress error
      then (returned no_requeue none, s)
      else (returned no_requeue (some error), s)
  after_delete (panic p, s) = (panicked p, s)

  -- the status update behind `reconcileNormal`, with `errors.Join`
  unfoldable pub after_normal : Result CtrlResult × State World → Return × State World
  after_normal (ok result, s) =
      let (r, s') = act (updated_status s.plan) (e.update_status s.plan) s in
      (update_return result none r, s')
  after_normal (err error, s) =
      let (r, s') = act (updated_status s.plan) (e.update_status s.plan) s in
      (update_return no_requeue (some error) r, s')
  after_normal (panic p, s) = (panicked p, s)

  unfoldable pub reconcile_plan : State World → Return × State World
  unfolding after_delete after_normal
  reconcile_plan s =
      let has_finalizer =
        e.finalizers.contains_finalizer s.plan.metadata.finalizers upgrade_plan_finalizer in
      if is_zero s.plan.metadata.deletion_timestamp
      then (if has_finalizer
          then after_normal (reconcile_normal e s)
          else update_plan (requeue_if true) (set_finalizers e.finalizers.add_finalizer) s)
      else (if has_finalizer
          then after_delete (reconcile_delete e s)
          else (returned no_requeue none, s))

  -- `client.IgnoreNotFound` decides the first return.
  unfoldable pub reconcile_found : World → Result UpgradePlan → Return × World × List Call
  reconcile_found w (ok plan) =
      let (r, s) = reconcile_plan (record { world = w; plan = plan; trace = [] }) in
      (r, s.world, s.trace)
  reconcile_found w (err error) =
      (returned no_requeue (if is_not_found error then none else some error), w, [])
  reconcile_found w (panic p) = (panicked p, w, [])

  unfoldable pub reconcile : NamespacedName → World → Return × World × List Call
  unfolding reconcile_found
  reconcile request w = reconcile_found w (e.get_upgrade_plan request w)
