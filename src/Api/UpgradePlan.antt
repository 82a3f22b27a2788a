-- ===== src/Api/UpgradePlan.antt =====
-- api/v1alpha1/upgradeplan_types.go
use upgrade_controller.Prelude.{ℕ, String, ◌++◌, Bool, Option, List}
use upgrade_controller.Kube.{ObjectMeta, Condition}

abbrev pub upgrade_plan_finalizer : String
upgrade_plan_finalizer = "upgradeplan.lifecycle.suse.com/finalizer"

abbrev pub validation_failed_condition : String
validation_failed_condition = "ValidationFailed"

abbrev pub unsupported_architecture_reason : String
unsupported_architecture_reason = "UnsupportedArchitecture"

abbrev pub operating_system_upgraded_condition : String
operating_system_upgraded_condition = "OSUpgraded"

abbrev pub kubernetes_upgraded_condition : String
kubernetes_upgraded_condition = "KubernetesUpgraded"

abbrev pub upgrade_error : String
upgrade_error = "Error"

abbrev pub upgrade_pending : String
upgrade_pending = "Pending"

abbrev pub upgrade_in_progress : String
upgrade_in_progress = "InProgress"

abbrev pub upgrade_skipped : String
upgrade_skipped = "Skipped"

abbrev pub upgrade_succeeded : String
upgrade_succeeded = "Succeeded"

abbrev pub upgrade_failed : String
upgrade_failed = "Failed"

pub record DisableDrain : Type 0 where
  pub control_plane : Bool
  pub worker : Bool

-- `values` is the raw JSON; `none` is nil
pub record HelmValues : Type 0 where
  pub chart : String
  pub values : Option String

pub record UpgradePlanSpec : Type 0 where
  pub release_version : String
  pub disable_drain : Option DisableDrain
  pub helm : List HelmValues

pub record UpgradePlanStatus : Type 0 where
  pub conditions : List Condition
  pub observed_generation : ℕ
  pub suc_name_suffix : String
  pub last_successful_release_version : String

pub record UpgradePlan : Type 0 where
  pub metadata : ObjectMeta
  pub spec : UpgradePlanSpec
  pub status : UpgradePlanStatus

unfoldable pub get_chart_condition_type : String → String
get_chart_condition_type pretty_name = pretty_name ++ "Upgraded"
