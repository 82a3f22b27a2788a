-- ===== src/Tests/Webhook.antt =====
-- The webhook on a small plan.
use upgrade_controller.Prelude.{◌≡◌, ◌↔◌, ◌⊎◌, String, [], ◌∷◌}
use upgrade_controller.Errors.{ok}
use upgrade_controller.Kube.{condition_false}
use upgrade_controller.Api.UpgradePlan.{UpgradePlan}
use upgrade_controller.Api.Webhook.{Versions, greater, upgrade_plan, validate_update}
use upgrade_controller.Api.Webhook.Admission.{RemovesFinalizers, IsAdmissible, validate_update_iff}
use upgrade_controller.Tests.Samples.{sample_plan}

-- every version is greater than every other
abbrev pub growing_versions : Versions
growing_versions = record {
  Version = String;
  parse_semantic = λ s. ok s;
  compare = λ v s. ok greater;
}

abbrev next_plan : UpgradePlan
next_plan = record sample_plan {
  spec = record (sample_plan.spec) { release_version = "3.2.0" };
  status = record (sample_plan.status) {
    conditions =
        record {
          type = "OSUpgraded";
          status = condition_false;
          reason = "InProgress";
          message = "";
        }
        ∷ [];
  };
}

validate_update_iff_example :
    (validate_update growing_versions (upgrade_plan sample_plan) (upgrade_plan next_plan) ≡ ok tt)
    ↔ (RemovesFinalizers sample_plan next_plan
        ⊎ IsAdmissible growing_versions sample_plan next_plan)
validate_update_iff_example = validate_update_iff growing_versions sample_plan next_plan
