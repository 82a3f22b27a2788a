-- ===== src/Controller/Conditions/States.antt =====
-- The condition that a chart's state sets, against the test that lets the upgrade go on.
use upgrade_controller.Prelude.{String, ◌≡◌, ◌≢◌, refl, ◌∙◌, some, arith, eq_iff}
use upgrade_controller.Kube.{ConditionStatus}
use upgrade_controller.Api.UpgradePlan.{UpgradePlan}
use upgrade_controller.Upgrade.Helm.{
  HelmChartState, unknown, not_installed, version_already_installed, in_progress, failed, succeeded,
}
use upgrade_controller.Controller.Env.{ConditionOps}
use upgrade_controller.Controller.Conditions.{
  set_condition, is_helm_upgrade_finished, evaluate_helm_chart_state,
}
use upgrade_controller.Controller.Conditions.Laws.{
  ConditionLaws, condition_of, condition_of-set_condition,
}

module _ (ops : ConditionOps) (laws : ConditionLaws ops) (plan : UpgradePlan)
    (type message : String) where
  own :
      (status : ConditionStatus) (reason : String)
      → condition_of ops (set_condition ops status reason plan type message) type
        ≡ some (record { type = type; status = status; reason = reason; message = message })
  own status reason =
      condition_of-set_condition ops laws plan status reason type message type
      ∙ ground (arith, eq_iff type type)

  others :
      (status : ConditionStatus) (reason other : String)
      → type ≢ other
      → condition_of ops (set_condition ops status reason plan type message) other
        ≡ condition_of ops plan other
  others status reason other differs =
      condition_of-set_condition ops laws plan status reason type message other
      ∙ ground (arith, eq_iff type other)

  -- the chart's own condition
  pub finished-evaluate :
      (state : HelmChartState)
      → is_helm_upgrade_finished ops
          ((evaluate_helm_chart_state ops state).0 plan type message)
          type
        ≡ (evaluate_helm_chart_state ops state).1
  unfolding is_helm_upgrade_finished evaluate_helm_chart_state
  finished-evaluate not_installed = rw (own _ _) refl
  finished-evaluate version_already_installed = rw (own _ _) refl
  finished-evaluate in_progress = rw (own _ _) refl
  finished-evaluate succeeded = rw (own _ _) refl
  finished-evaluate failed = rw (own _ _) refl
  finished-evaluate unknown = rw (own _ _) refl

  -- the conditions of other types
  same-evaluate :
      (state : HelmChartState) (other : String)
      → type ≢ other
      → condition_of ops ((evaluate_helm_chart_state ops state).0 plan type message) other
        ≡ condition_of ops plan other
  unfolding evaluate_helm_chart_state
  same-evaluate not_installed = others _ _
  same-evaluate version_already_installed = others _ _
  same-evaluate in_progress = others _ _
  same-evaluate succeeded = others _ _
  same-evaluate failed = others _ _
  same-evaluate unknown = others _ _

-- The condition that `evaluateHelmChartState` sets for a chart's state counts as finished exactly
-- where the pass is to be run again at once, so that the pass that follows goes on to the next
-- chart; the conditions of all other types stay as they were. Conditions work as Kubernetes
-- documents.
pub evaluate_helm_chart_state-finished :
    (ops : ConditionOps) (laws : ConditionLaws ops) (state : HelmChartState) (plan : UpgradePlan)
    (type message other : String)
    → type ≢ other
    → (is_helm_upgrade_finished ops ((evaluate_helm_chart_state ops state).0 plan type message) type
        ≡ (evaluate_helm_chart_state ops state).1)
      × (condition_of ops ((evaluate_helm_chart_state ops state).0 plan type message) other
          ≡ condition_of ops plan other)
evaluate_helm_chart_state-finished ops laws state plan type message other differs = (
  finished-evaluate ops laws plan type message state,
  same-evaluate ops laws plan type message state other differs,
)
