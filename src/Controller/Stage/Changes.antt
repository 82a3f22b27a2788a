-- ===== src/Controller/Stage/Changes.antt =====
-- What the ends of the branches change.
use upgrade_controller.Prelude.{◌≡◌, String, ◌∷◌, arith}
use upgrade_controller.Kube.{Plan, plan}
use upgrade_controller.Controller.Env.{Env}
use upgrade_controller.Controller.Effects.{effects, created, State}
use upgrade_controller.Controller.Effects.Changes.{
  changes, changes-create_object, plan-create_object,
}
use upgrade_controller.Controller.Conditions.{set_in_progress_condition}
use upgrade_controller.Controller.Stage.{create_in_progress}

module _ (e : Env) (type message : String) (s : State e.World) where
  pub changes-create_in_progress :
      (p : Plan)
      → changes (create_in_progress e type message p s).1.trace ≡ created (plan p) ∷ changes s.trace
  unfolding effects create_in_progress
  changes-create_in_progress p =
      let u = record s { plan = set_in_progress_condition e.conditions s.plan type message } in
      ground (arith, changes-create_object e (plan p) u)

  pub plan-create_in_progress :
      (p : Plan)
      → (create_in_progress e type message p s).1.plan
        ≡ set_in_progress_condition e.conditions s.plan type message
  unfolding effects create_in_progress
  plan-create_in_progress p =
      let u = record s { plan = set_in_progress_condition e.conditions s.plan type message } in
      ground (arith, plan-create_object e (plan p) u)
