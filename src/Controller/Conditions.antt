-- ===== src/Controller/Conditions.antt =====
-- The condition setters of upgradeplan_controller.go, and the tests on conditions.
pub mod Laws
pub mod States
use upgrade_controller.Prelude.{
  String, ◌++◌, Bool, true, false, ◌&&◌, ◌||◌, Option, none, some, ◌==◌, if◌then◌else◌,
}
use upgrade_controller.Kube.{
  Condition, ConditionStatus, condition_true, condition_false, condition_unknown, is_true, is_false,
}
use upgrade_controller.Api.UpgradePlan.{
  UpgradePlan, upgrade_error, upgrade_pending, upgrade_in_progress, upgrade_skipped,
  upgrade_succeeded, upgrade_failed,
}
use upgrade_controller.Upgrade.Helm.{
  HelmChartState, unknown, not_installed, version_already_installed, in_progress, failed, succeeded,
}
use upgrade_controller.Controller.Env.{ConditionOps}

pub upgrade_pending_message : String → String
upgrade_pending_message component = component ++ " upgrade is not yet started"

abbrev finished_if : Option Condition → Bool
finished_if none = false
finished_if (some c) =
    if is_true c.status
    then true
    else is_false c.status && (c.reason == upgrade_skipped || c.reason == upgrade_failed)

module _ (ops : ConditionOps) where
  open ops use {set_status_condition, find_status_condition}

  unfoldable pub set_condition :
      ConditionStatus → String → UpgradePlan → String → String → UpgradePlan
  set_condition status reason plan type message = record plan {
    status = record (plan.status) {
      conditions =
          set_status_condition plan.status.conditions
            (record { type = type; status = status; reason = reason; message = message });
    };
  }

  unfoldable pub set_pending_condition : UpgradePlan → String → String → UpgradePlan
  unfolding set_condition
  set_pending_condition = set_condition condition_unknown upgrade_pending

  unfoldable pub set_error_condition : UpgradePlan → String → String → UpgradePlan
  unfolding set_condition
  set_error_condition = set_condition condition_unknown upgrade_error

  unfoldable pub set_in_progress_condition : UpgradePlan → String → String → UpgradePlan
  unfolding set_condition
  set_in_progress_condition = set_condition condition_false upgrade_in_progress

  unfoldable pub set_successful_condition : UpgradePlan → String → String → UpgradePlan
  unfolding set_condition
  set_successful_condition = set_condition condition_true upgrade_succeeded

  unfoldable pub set_failed_condition : UpgradePlan → String → String → UpgradePlan
  unfolding set_condition
  set_failed_condition = set_condition condition_false upgrade_failed

  unfoldable pub set_skipped_condition : UpgradePlan → String → String → UpgradePlan
  unfolding set_condition
  set_skipped_condition = set_condition condition_false upgrade_skipped

  unfoldable pub is_helm_upgrade_finished : UpgradePlan → String → Bool
  is_helm_upgrade_finished plan type =
      finished_if (find_status_condition plan.status.conditions type)

  -- the condition setter of a chart's state, and whether to requeue
  unfoldable pub evaluate_helm_chart_state :
      HelmChartState → (UpgradePlan → String → String → UpgradePlan) × Bool
  unfolding set_skipped_condition set_in_progress_condition set_successful_condition
      set_failed_condition set_error_condition
  evaluate_helm_chart_state not_installed = (set_skipped_condition, true)
  evaluate_helm_chart_state version_already_installed = (set_skipped_condition, true)
  evaluate_helm_chart_state in_progress = (set_in_progress_condition, false)
  evaluate_helm_chart_state succeeded = (set_successful_condition, true)
  evaluate_helm_chart_state failed = (set_failed_condition, true)
  evaluate_helm_chart_state unknown = (set_error_condition, false)
