-- ===== src/Controller/Watches/Triggers.antt =====
-- How often a job or a SUC plan triggers a pass over its life.
use upgrade_controller.Prelude.{
  ℕ, ◌+◌, ◌≡◌, refl, Bool, true, false, not, ◌&&◌, List, [], ◌∷◌, arith, if◌then◌else◌,
}
use upgrade_controller.Kube.{StatusCondition}
use upgrade_controller.Controller.Watches.{WatchEvent, update_event, job_predicate, is_job_finished}

-- the number of updates that a filter lets through, from a first value over the later ones
pub triggers : {A : Type 0} → (WatchEvent A → Bool) → A → List A → ℕ
triggers accepts old [] = 0
triggers accepts old (new ∷ later) =
    let rest = triggers accepts new later in
    if accepts (update_event old new) then rest + 1 else rest

-- A finished job stays so.
unfoldable pub StaysFinished : List StatusCondition → List (List StatusCondition) → Type 0
StaysFinished old [] = Unit
StaysFinished old (new ∷ later) =
    (is_job_finished old ≡ true → is_job_finished new ≡ true) × StaysFinished new later

-- the last of the values
abbrev pub last_of : {A : Type 0} → A → List A → A
last_of old [] = old
last_of old (new ∷ later) = last_of new later

-- the count for a job that is finished, or not, at its first and its last value
abbrev pub expected_triggers : Bool → Bool → ℕ
expected_triggers false true = 1
expected_triggers _ _ = 0

finished_at_last :
    (first : List StatusCondition) (later : List (List StatusCondition))
    → StaysFinished first later
    → is_job_finished first ≡ true
    → is_job_finished (last_of first later) ≡ true
unfolding StaysFinished
finished_at_last first [] h done = done
finished_at_last first (new ∷ later) (stays, h) done = finished_at_last new later h (stays done)

none_left : (b : Bool) → 0 ≡ expected_triggers b b
none_left true = refl
none_left false = refl

-- one update, from the old value's test `a` and the new one's `b` to the last one's `c`
count_step :
    (a b c : Bool) (rest : ℕ)
    → rest ≡ expected_triggers b c
    → (a ≡ true → b ≡ true)
    → (b ≡ true → c ≡ true)
    → (if b && not a then rest + 1 else rest) ≡ expected_triggers a c
count_step true true true rest h ab bc = h
count_step false true true rest h ab bc = ground arith
count_step false false c rest h ab bc = h
count_step true false c rest h ab bc = let q = ab refl in cc
count_step a true false rest h ab bc = let q = bc refl in cc

-- Over the life of a job whose finished state is final, its updates trigger a pass exactly once if
-- it was unfinished at first and is finished at last, and never otherwise, however many updates it
-- sees.
pub job_triggers_once :
    (first : List StatusCondition) (later : List (List StatusCondition))
    → StaysFinished first later
    → triggers job_predicate first later
      ≡ expected_triggers (is_job_finished first) (is_job_finished (last_of first later))
unfolding triggers StaysFinished job_predicate
job_triggers_once first [] h = none_left (is_job_finished first)
job_triggers_once first (new ∷ later) (stays, h) =
    count_step (is_job_finished first) (is_job_finished new) (is_job_finished (last_of new later)) _
      (job_triggers_once new later h) stays (finished_at_last new later h)
