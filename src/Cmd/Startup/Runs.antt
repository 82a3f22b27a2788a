-- ===== src/Cmd/Startup/Runs.antt =====
-- Runs over the steps of a start, and how they end.
use upgrade_controller.Prelude.{String, ◌≡◌, refl, List, [], ◌∷◌}
use upgrade_controller.Errors.{Result, ok, err, panic}
use upgrade_controller.Cmd.{Exit, returned, exited, crashed, Step, or_exit}

-- How the program ends where a call did not succeed.
abbrev pub EndsIn : {A : Type 0} → Result A → Exit → Type 0
EndsIn (ok a) exit = ⊥
EndsIn (err error) exit = exit ≡ exited 1
EndsIn (panic text) exit = exit ≡ crashed text

-- The panic of `utilruntime.Must`.
abbrev pub NotAdded : Result (Unit {0}) → String → Type 0
NotAdded (ok u) text = ⊥
NotAdded (err error) text = text ≡ "AddToScheme"
NotAdded (panic reason) text = text ≡ reason

-- a step with the call that it makes on the manager
pub record Planned (M : Type 0) : Type 0 where
  pub step : Step
  pub call : M → Result M

-- A run over steps that are to be taken one after the other, each on the manager that the one
-- before it left: it ends with the first whose call does not succeed.
pub data RunOf {M : Type 0} : M → List (Planned M) → Exit × List Step → Type 0 where
  all_taken : (m : M) → RunOf m [] (returned, [])
  taken :
      {p : Planned M} {rest : List (Planned M)} {m after : M} {exit : Exit} {steps : List Step}
      → p.call m ≡ ok after
      → RunOf after rest (exit, steps)
      → RunOf m (p ∷ rest) (exit, p.step ∷ steps)
  stopped :
      {p : Planned M} {rest : List (Planned M)} {m : M} {exit : Exit}
      → EndsIn (p.call m) exit
      → RunOf m (p ∷ rest) (exit, p.step ∷ [])

pub or_exit-RunOf :
    {M : Type 0} (p : Planned M) (rest : List (Planned M)) (m : M) (next : M → Exit × List Step)
    → ((after : M) → RunOf after rest (next after))
    → RunOf m (p ∷ rest) (or_exit p.step (p.call m) next)
unfolding or_exit
or_exit-RunOf {M} p rest m next run = go (p.call m) refl
  where
    go : (r : Result M) → p.call m ≡ r → RunOf m (p ∷ rest) (or_exit p.step r next)
    go (ok after) q = RunOf.taken q (run after)
    go (err error) q = RunOf.stopped (rw q refl)
    go (panic text) q = RunOf.stopped (rw q refl)
