-- ===== src/Controller/Reconcile/Admission.antt =====
-- The controller's own updates of a plan, at the webhook.
use upgrade_controller.Prelude.{◌≡◌, ◌<◌, String, true, false, List, length, inl}
use upgrade_controller.Errors.{ok}
use upgrade_controller.Kube.{is_zero}
use upgrade_controller.Api.UpgradePlan.{UpgradePlan, upgrade_plan_finalizer}
use upgrade_controller.Api.Webhook.{Versions, upgrade_plan, validate_update}
use upgrade_controller.Api.Webhook.Admission.{RemovesFinalizers, validate_update_iff}
use upgrade_controller.Controller.Env.{Env, FinalizerOps}
use upgrade_controller.Controller.Reconcile.Loop.{set_finalizers}

-- `RemoveFinalizer` takes out a finalizer that is there.
pub record FinalizerLaws (ops : FinalizerOps) : Type 0 where
  pub remove_lem :
      (fs : List String) (f : String)
      → ops.contains_finalizer fs f ≡ true
      → length (ops.remove_finalizer fs f) < length fs

removed :
    (e : Env) (laws : FinalizerLaws e.finalizers) (plan : UpgradePlan)
    → is_zero plan.metadata.deletion_timestamp ≡ false
    → e.finalizers.contains_finalizer plan.metadata.finalizers upgrade_plan_finalizer ≡ true
    → RemovesFinalizers plan (set_finalizers e e.finalizers.remove_finalizer plan)
removed e laws plan deleted owned = record {
  scheduled = deleted;
  fewer = laws.remove_lem plan.metadata.finalizers upgrade_plan_finalizer owned;
}

-- The update by which the controller releases a plan that is being deleted passes the webhook,
-- whatever the states of the plan's conditions and its release version: an upgrade in progress does
-- not keep the finalizer in place. `RemoveFinalizer` works as documented.
pub release_admitted :
    (v : Versions) (e : Env) (laws : FinalizerLaws e.finalizers) (plan : UpgradePlan)
    → is_zero plan.metadata.deletion_timestamp ≡ false
    → e.finalizers.contains_finalizer plan.metadata.finalizers upgrade_plan_finalizer ≡ true
    → validate_update v
        (upgrade_plan plan)
        (upgrade_plan (set_finalizers e e.finalizers.remove_finalizer plan))
      ≡ ok tt
release_admitted v e laws plan deleted owned =
    (validate_update_iff v plan _).1 (inl (removed e laws plan deleted owned))
