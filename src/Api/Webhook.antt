-- ===== src/Api/Webhook.antt =====
-- api/v1alpha1/upgradeplan_webhook.go. Semantic versions are k8s.io/apimachinery's and a parameter.
pub mod Admission
use upgrade_controller.Prelude.{
  String, ◌++◌, Bool, not, ◌&&◌, ◌||◌, List, [], ◌∷◌, ◌==◌, length, ltb, if◌then◌else◌,
}
use upgrade_controller.Errors.{Result, ok, err, message, ◌>>=◌, in_context}
use upgrade_controller.Kube.{Condition, is_zero}
use upgrade_controller.Api.UpgradePlan.{
  UpgradePlan, upgrade_in_progress, upgrade_pending, upgrade_error,
}

-- what `(*version.Version).Compare` answers: -1, 0 or 1
pub data Indicator : Type 0 where
  less equal greater : Indicator

-- k8s.io/apimachinery/pkg/util/version
pub record Versions : Type 1 where
  pub Version : Type 0
  pub parse_semantic : String → Result Version
  pub compare : Version → String → Result Indicator

-- a runtime.Object: an upgrade plan, or one of another type, by its name
pub data RuntimeObject : Type 0 where
  upgrade_plan : UpgradePlan → RuntimeObject
  other_object : String → RuntimeObject

abbrev as_upgrade_plan : RuntimeObject → Result UpgradePlan
as_upgrade_plan (upgrade_plan p) = ok p
as_upgrade_plan (other_object t) = err (message ("unexpected object type: " ++ t))

-- `slices.Contains(disallowingUpdateStates, reason)`
abbrev pub is_disallowing : String → Bool
is_disallowing reason =
    reason == upgrade_in_progress || (reason == upgrade_pending || reason == upgrade_error)

-- the loop over the new plan's conditions
check_conditions : List Condition → Result (Unit {0})
check_conditions [] = ok tt
check_conditions (c ∷ rest) =
    let later = check_conditions rest in
    if is_disallowing c.reason
    then err (
        message (
          "upgrade plan cannot be edited while condition '" ++ c.type ++ "' is in '" ++ c.reason
          ++ "' state"))
    else later

-- the `switch` on the indicator
check_indicator : String → String → Indicator → Result (Unit {0})
check_indicator name last equal =
    err (
      message ("any edits over '" ++ name ++ "' must come with an increment of the releaseVersion"))
check_indicator name last less = err (
    message
      ("new releaseVersion must be greater than the currently applied one ('" ++ last ++ "')"))
check_indicator name last greater = ok tt

-- deletion is scheduled and the update removes finalizers
unfoldable pub removes_finalizers : UpgradePlan → UpgradePlan → Bool
removes_finalizers old new =
    not (is_zero new.metadata.deletion_timestamp)
    && ltb (length new.metadata.finalizers) (length old.metadata.finalizers)

module _ (v : Versions) where
  open v use {Version, parse_semantic, compare}

  not_semantic : String → Result Version → Result Version
  not_semantic s (err e) = err (message ("'" ++ s ++ "' is not a semantic version"))
  not_semantic s parsed = parsed

  pub validate_release_version : String → Result Version
  unfolding not_semantic
  validate_release_version release_version =
      if release_version == ""
      then err (message "release version is required")
      else not_semantic release_version (parse_semantic release_version)

  pub validate_create : RuntimeObject → Result (Unit {0})
  validate_create obj = do
    plan ← as_upgrade_plan obj
    _ ← validate_release_version plan.spec.release_version
    ok tt

  -- the comparison with the last successful release, which is skipped where there is none
  check_increment : UpgradePlan → UpgradePlan → Version → Result (Unit {0})
  unfolding check_indicator
  check_increment old new version =
      let last = old.status.last_successful_release_version in
      if last == "" then ok tt else do
        indicator ← in_context "comparing versions" (compare version last)
        check_indicator new.metadata.name last indicator

  -- `ValidateUpdate` behind its type assertions
  pub validate_plan_update : UpgradePlan → UpgradePlan → Result (Unit {0})
  validate_plan_update old new = if removes_finalizers old new then ok tt else do
    _ ← check_conditions new.status.conditions
    version ← validate_release_version new.spec.release_version
    check_increment old new version

  pub validate_update : RuntimeObject → RuntimeObject → Result (Unit {0})
  validate_update old new = do
    old_plan ← as_upgrade_plan old
    new_plan ← as_upgrade_plan new
    validate_plan_update old_plan new_plan

  pub validate_delete : RuntimeObject → Result (Unit {0})
  validate_delete obj = ok tt

-- webhook.CustomValidator, less the warnings, which are always nil
pub record Validator : Type 0 where
  pub create : RuntimeObject → Result (Unit {0})
  pub update : RuntimeObject → RuntimeObject → Result (Unit {0})
  pub delete : RuntimeObject → Result (Unit {0})

abbrev pub upgrade_plan_validator : Versions → Validator
upgrade_plan_validator v = record {
  create = validate_create v;
  update = validate_update v;
  delete = validate_delete v;
}

-- `complete` is `Complete` of the builder for upgrade plans, with this validator.
abbrev pub setup_webhook_with_manager :
    {M : Type 0} → Versions → (Validator → M → Result (Unit {0}) × M) → M → Result (Unit {0}) × M
setup_webhook_with_manager v complete m = complete (upgrade_plan_validator v) m
