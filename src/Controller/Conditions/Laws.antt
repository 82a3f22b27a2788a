-- ===== src/Controller/Conditions/Laws.antt =====
-- What the code relies on of k8s.io/apimachinery/pkg/api/meta, and what follows for the setters.
use upgrade_controller.Prelude.{
  String, ◌≡◌, Bool, false, Option, none, some, List, ◌==◌, arith, if◌then◌else◌,
}
use upgrade_controller.Kube.{Condition, ConditionStatus, is_true}
use upgrade_controller.Api.UpgradePlan.{UpgradePlan}
use upgrade_controller.Controller.Env.{ConditionOps}
use upgrade_controller.Controller.Conditions.{set_condition}

abbrev pub is_true_condition : Option Condition → Bool
is_true_condition none = false
is_true_condition (some c) = is_true c.status

-- `SetStatusCondition` replaces or adds the condition of its type and leaves the others, and
-- `IsStatusConditionTrue` tests the status of what `FindStatusCondition` finds.
pub record ConditionLaws (ops : ConditionOps) : Type 0 where
  pub find-set :
      (cs : List Condition) (c : Condition) (type : String)
      → ops.find_status_condition (ops.set_status_condition cs c) type
        ≡ (if c.type == type then some c else ops.find_status_condition cs type)
  pub true-find :
      (cs : List Condition) (type : String)
      → ops.is_status_condition_true cs type ≡ is_true_condition (ops.find_status_condition cs type)

-- whether a plan has a true condition of a type, and its condition of a type
abbrev pub has_true : ConditionOps → UpgradePlan → String → Bool
has_true ops plan type = ops.is_status_condition_true plan.status.conditions type

abbrev pub condition_of : ConditionOps → UpgradePlan → String → Option Condition
condition_of ops plan type = ops.find_status_condition plan.status.conditions type

module _ (ops : ConditionOps) (laws : ConditionLaws ops) (plan : UpgradePlan)
    (status : ConditionStatus) (reason : String) where
  pub condition_of-set_condition :
      (type message t : String)
      → condition_of ops (set_condition ops status reason plan type message) t ≡ (
          if type == t
          then some (record { type = type; status = status; reason = reason; message = message })
          else condition_of ops plan t)
  unfolding set_condition
  condition_of-set_condition type message t = laws.find-set _ _ t

  pub has_true-set_condition :
      (type message t : String)
      → has_true ops (set_condition ops status reason plan type message) t
        ≡ (if type == t then is_true status else has_true ops plan t)
  has_true-set_condition type message t =
      rw (laws.true-find, laws.true-find, condition_of-set_condition type message t) (ground arith)
