-- ===== src/Controller/Stage/Progress.antt =====
-- What a pass over a stage makes of the stage's condition.
use upgrade_controller.Prelude.{String, ◌≡◌, true, false, arith, eq_refl}
use upgrade_controller.Kube.{Plan, condition_false}
use upgrade_controller.Api.UpgradePlan.{UpgradePlan, upgrade_in_progress}
use upgrade_controller.Controller.Env.{Env, ConditionOps}
use upgrade_controller.Controller.Effects.{State}
use upgrade_controller.Controller.Conditions.{set_in_progress_condition, set_successful_condition}
use upgrade_controller.Controller.Conditions.Laws.{ConditionLaws, has_true, has_true-set_condition}
use upgrade_controller.Controller.Stage.{create_in_progress}
use upgrade_controller.Controller.Stage.Changes.{plan-create_in_progress}

-- The plan stays, its stage is in progress, or its stage has succeeded and `Done` holds.
pub data Progress (ops : ConditionOps) (type : String) (Done : Type 0) (before after : UpgradePlan)
    : Type 0 where
  kept : after ≡ before → Progress ops type Done before after
  in_progress :
      (message : String)
      → after ≡ set_in_progress_condition ops before type message
      → Progress ops type Done before after
  successful :
      (message : String)
      → after ≡ set_successful_condition ops before type message
      → Done
      → Progress ops type Done before after

module _ (ops : ConditionOps) (laws : ConditionLaws ops) (type : String) {Done : Type 0}
    {before after : UpgradePlan} where
  -- A stage that becomes true is done.
  pub Done_of_Progress :
      Progress ops type Done before after
      → has_true ops before type ≡ false
      → has_true ops after type ≡ true
      → Done
  unfolding set_in_progress_condition
  Done_of_Progress (Progress.kept same) b a = ground arith
  Done_of_Progress (Progress.in_progress m same) b a = ground (
    arith,
    eq_refl type,
    has_true-set_condition ops laws before condition_false upgrade_in_progress type m type,
  )
  Done_of_Progress (Progress.successful m same done) b a = done

module _ (e : Env) (type message : String) {Done : Type 0} (s : State e.World) where
  pub create_in_progress-Progress :
      (p : Plan)
      → Progress e.conditions type Done s.plan (create_in_progress e type message p s).1.plan
  create_in_progress-Progress p =
      Progress.in_progress message (plan-create_in_progress e type message s p)
