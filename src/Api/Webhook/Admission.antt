-- ===== src/Api/Webhook/Admission.antt =====
-- When the webhook admits an update, stated without its code.
use upgrade_controller.Prelude.{
  String, ◌≡◌, ◌≢◌, ◌↔◌, ◌⊎◌, refl, inl, inr, true, false, List, [], ◌∷◌, All, length, ◌<◌, arith,
  eq_iff, Bool-cases,
}
use upgrade_controller.Errors.{ok, >>=-eq-ok}
use upgrade_controller.Kube.{Condition, is_zero}
use upgrade_controller.Api.UpgradePlan.{UpgradePlan}
use upgrade_controller.Api.Webhook.{
  Versions, greater, upgrade_plan, is_disallowing, check_conditions, removes_finalizers,
  validate_release_version, check_increment, validate_plan_update, validate_update,
}

-- an update that removes finalizers of a plan whose deletion is scheduled
pub record RemovesFinalizers (old new : UpgradePlan) : Type 0 where
  pub scheduled : is_zero new.metadata.deletion_timestamp ≡ false
  pub fewer : length new.metadata.finalizers < length old.metadata.finalizers

RemovesFinalizers-iff :
    (old new : UpgradePlan) → (removes_finalizers old new ≡ true) ↔ RemovesFinalizers old new
unfolding removes_finalizers
RemovesFinalizers-iff old new = (
  λ h. record { scheduled = ground arith; fewer = ground arith },
  λ r. ground (arith, r.scheduled, r.fewer),
)

-- a reason that lets the plan be edited
pub record IsEditable (reason : String) : Type 0 where
  pub not_in_progress : reason ≢ "InProgress"
  pub not_pending : reason ≢ "Pending"
  pub not_error : reason ≢ "Error"

IsEditable-iff : (reason : String) → (is_disallowing reason ≡ false) ↔ IsEditable reason
IsEditable-iff reason =
    ground (arith, eq_iff reason "InProgress", eq_iff reason "Pending", eq_iff reason "Error")

abbrev pub AllEditable : List Condition → Type 0
AllEditable cs = All (λ c. IsEditable c.reason) cs

check_conditions_iff : (cs : List Condition) → (check_conditions cs ≡ ok tt) ↔ AllEditable cs
unfolding check_conditions
check_conditions_iff [] = (λ h. tt, λ h. refl)
check_conditions_iff (c ∷ cs) = ground (arith, IsEditable-iff c.reason, check_conditions_iff cs)

module _ (v : Versions) where
  -- What an update that removes no finalizer of a deleted plan has to meet.
  pub record IsAdmissible (old new : UpgradePlan) : Type 0 where
    pub editable : AllEditable new.status.conditions
    pub named : new.spec.release_version ≢ ""
    pub version : v.Version
    pub parsed : v.parse_semantic new.spec.release_version ≡ ok version
    pub increases :
        (old.status.last_successful_release_version ≡ "")
        ⊎ (v.compare version old.status.last_successful_release_version ≡ ok greater)

  module _ (old new : UpgradePlan) where
    increment_sound :
        (version : v.Version)
        → check_increment v old new version ≡ ok tt
        → (old.status.last_successful_release_version ≡ "")
          ⊎ (v.compare version old.status.last_successful_release_version ≡ ok greater)
    unfolding check_increment
    increment_sound version h = ground (arith, eq_iff old.status.last_successful_release_version "")

    increment_complete :
        (version : v.Version)
        → (old.status.last_successful_release_version ≡ "")
          ⊎ (v.compare version old.status.last_successful_release_version ≡ ok greater)
        → check_increment v old new version ≡ ok tt
    unfolding check_increment
    increment_complete version h =
        ground (arith, eq_iff old.status.last_successful_release_version "")

    version_sound :
        (s : String) (version : v.Version)
        → validate_release_version v s ≡ ok version
        → (s ≢ "") × (v.parse_semantic s ≡ ok version)
    unfolding validate_release_version
    version_sound s version h = ground (arith, eq_iff s "")

    version_complete :
        (s : String) (version : v.Version)
        → s ≢ ""
        → v.parse_semantic s ≡ ok version
        → validate_release_version v s ≡ ok version
    unfolding validate_release_version
    version_complete s version n h = ground (arith, eq_iff s "")

    admission_sound :
        removes_finalizers old new ≡ false
        → validate_plan_update v old new ≡ ok tt
        → IsAdmissible old new
    unfolding validate_plan_update
    admission_sound r h =
        let (u, editable, rest) = >>=-eq-ok _ _ (rw r at h) in
        let (version, valid, increment) = >>=-eq-ok _ _ rest in
        let (named, parsed) = version_sound new.spec.release_version version valid in
        record {
          editable = (check_conditions_iff new.status.conditions).0 editable;
          named = named;
          version = version;
          parsed = parsed;
          increases = increment_sound version increment;
        }

    admission_complete : IsAdmissible old new → validate_plan_update v old new ≡ ok tt
    unfolding validate_plan_update
    admission_complete a = ground (
      arith,
      check_conditions_iff new.status.conditions,
      version_complete new.spec.release_version a.version,
      increment_complete a.version,
    )

-- An update of an upgrade plan is admitted exactly when it removes finalizers from a plan whose
-- deletion is scheduled, or no condition of the new plan is in progress, pending or in error, its
-- release version is a semantic version, and that version is greater than the last successful one
-- where the old plan has one.
pub validate_update_iff :
    (v : Versions) (old new : UpgradePlan)
    → (validate_update v (upgrade_plan old) (upgrade_plan new) ≡ ok tt)
      ↔ (RemovesFinalizers old new ⊎ IsAdmissible v old new)
validate_update_iff v old new = (sound, complete)
  where
    sound :
        validate_update v (upgrade_plan old) (upgrade_plan new) ≡ ok tt
        → RemovesFinalizers old new ⊎ IsAdmissible v old new
    sound h = elim (Bool-cases (removes_finalizers old new)) [
      | inl r ↦ inl ((RemovesFinalizers-iff old new).0 r)
      | inr r ↦ inr (admission_sound v old new r (unfold validate_update in h))
    ]

    complete :
        RemovesFinalizers old new ⊎ IsAdmissible v old new
        → validate_update v (upgrade_plan old) (upgrade_plan new) ≡ ok tt
    complete (inl r) =
        let q = (RemovesFinalizers-iff old new).1 r in
        unfold validate_update validate_plan_update in rw q
    complete (inr a) = unfold validate_update in admission_complete v old new a
