-- ===== src/Controller/Frame.antt =====
-- What the methods of the reconciler leave of the upgrade plan: rules for the properties of the
-- plan that a change of one condition keeps.
pub mod Charts
pub mod Stages
pub mod Helm
use upgrade_controller.Prelude.{String}
use upgrade_controller.Errors.{Result}
use upgrade_controller.Kube.{ConditionStatus, Object}
use upgrade_controller.Api.UpgradePlan.{UpgradePlan}
use upgrade_controller.Controller.Env.{Env, ConditionOps}
use upgrade_controller.Controller.Conditions.{set_condition}
use upgrade_controller.Controller.Effects.{
  Call, State, effects, act, the_plan, eventf, change_plan, create_object,
}
use upgrade_controller.Controller.Effects.Keeps.{Keeps, Keeps-then}

-- a property of the plan, at a state
pub record OnPlan {W : Type 0} (P : UpgradePlan → Type 0) (s : State W) : Type 0 where
  pub holds : P s.plan

-- Setting the condition of this type keeps the property.
pub record ConditionFrame (ops : ConditionOps) (type : String) (P : UpgradePlan → Type 0)
    : Type 0 where
  pub kept :
      (status : ConditionStatus) (reason : String) (p : UpgradePlan) (text : String)
      → P p
      → P (set_condition ops status reason p type text)

module _ {W : Type 0} {P : UpgradePlan → Type 0} where
  -- Calls, events and reads keep every property of the plan,
  pub act-OnPlan : (call : Call) (f : W → Result (Unit {0}) × W) → Keeps (OnPlan P) (act call f)
  unfolding effects
  act-OnPlan call f = record { at = λ s h. record { holds = h.holds } }

  pub the_plan-OnPlan : Keeps (OnPlan P) (the_plan {W = W})
  unfolding effects
  the_plan-OnPlan = record { at = λ s h. h }

  pub eventf-OnPlan :
      (type reason message : String) → Keeps (OnPlan P) (eventf {W = W} type reason message)
  unfolding effects
  eventf-OnPlan type reason message = record { at = λ s h. record { holds = h.holds } }

  -- and a change of the plan those that the change keeps.
  pub change-OnPlan :
      (f : UpgradePlan → UpgradePlan)
      → ((p : UpgradePlan) → P p → P (f p))
      → Keeps (OnPlan P) (change_plan {W = W} f)
  unfolding effects
  change-OnPlan f kf = record { at = λ s h. record { holds = kf s.plan h.holds } }

pub create-OnPlan :
    (e : Env) {P : UpgradePlan → Type 0} (o : Object) → Keeps (OnPlan P) (create_object e o)
unfolding create_object
create-OnPlan e o = Keeps-then _ _ (act-OnPlan _ _) (eventf-OnPlan _ _ _)
