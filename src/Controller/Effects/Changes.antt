-- ===== src/Controller/Effects/Changes.antt =====
-- What a run changed: its calls other than events.
use upgrade_controller.Prelude.{◌≡◌, List, [], ◌∷◌, arith}
use upgrade_controller.Kube.{Object}
use upgrade_controller.Controller.Env.{Env}
use upgrade_controller.Controller.Effects.{effects, Call, created, event, State, create_object}

-- the latest first, as in the trace
abbrev pub changes : List Call → List Call
changes [] = []
changes (event ev ∷ calls) = changes calls
changes (c ∷ calls) = c ∷ changes calls

module _ (e : Env) (o : Object) (s : State e.World) where
  pub changes-create_object : changes (create_object e o s).1.trace ≡ created o ∷ changes s.trace
  unfolding effects create_object
  changes-create_object = ground arith

  pub plan-create_object : (create_object e o s).1.plan ≡ s.plan
  unfolding effects create_object
  plan-create_object = ground arith
