-- ===== src/Controller/Progression.antt =====
-- The upgrade as an abstract machine: a flag for each stage and chart, in the order in which they
-- are upgraded, which a pass sets one at a time and a new generation clears.
pub mod Flags
pub mod Refinement
pub mod Passes
pub mod Order
pub mod Settled
pub mod Requeue
pub mod Liveness
use upgrade_controller.Prelude.{
  ℕ, zero, suc, ◌≤◌, ◌≡◌, ◌≢◌, ap, refl, Bool, true, false, List, [], ◌∷◌, All, length, inl, inr,
  ◌⊎◌, arith,
}

-- What a pass may do: the flags that are set, up to the first that is not, stay; this one may be
-- set, and those behind it stay as they are.
pub data Advance : List Bool → List Bool → Type 0 where
  all_done : Advance [] []
  skip : {old new : List Bool} → Advance old new → Advance (true ∷ old) (true ∷ new)
  work : (now : Bool) (rest : List Bool) → Advance (false ∷ rest) (now ∷ rest)

-- no flag is set
abbrev pub Cleared : List Bool → Type 0
Cleared flags = All (λ b. b ≡ false) flags

-- Nothing is set behind a flag that is not set.
abbrev pub InOrder : List Bool → Type 0
InOrder [] = Unit
InOrder (true ∷ flags) = InOrder flags
InOrder (false ∷ flags) = Cleared flags

-- how many are not set
abbrev pub todo : List Bool → ℕ
todo [] = 0
todo (true ∷ flags) = todo flags
todo (false ∷ flags) = suc (todo flags)

pub Advance-refl : (flags : List Bool) → Advance flags flags
Advance-refl [] = Advance.all_done
Advance-refl (true ∷ flags) = Advance.skip (Advance-refl flags)
Advance-refl (false ∷ flags) = Advance.work false flags

pub InOrder-of_Cleared : (flags : List Bool) → Cleared flags → InOrder flags
InOrder-of_Cleared [] h = tt
InOrder-of_Cleared (true ∷ flags) (q, h) = let f : true ≡ false = q in cc
InOrder-of_Cleared (false ∷ flags) (q, h) = h

-- A pass keeps the order,
pub Advance-InOrder : (old new : List Bool) → Advance old new → InOrder old → InOrder new
Advance-InOrder [] [] Advance.all_done h = h
Advance-InOrder (true ∷ old) (true ∷ new) (Advance.skip step) h = Advance-InOrder old new step h
Advance-InOrder _ _ (Advance.work true rest) h = InOrder-of_Cleared rest h
Advance-InOrder _ _ (Advance.work false rest) h = h

-- and one that changes a flag sets it.
pub Advance-todo : (old new : List Bool) → Advance old new → old ≢ new → todo old ≡ suc (todo new)
Advance-todo [] [] Advance.all_done changed = ground (arith, changed refl)
Advance-todo (true ∷ old) (true ∷ new) (Advance.skip step) changed =
    Advance-todo old new step (λ same. changed (ap (λ flags. true ∷ flags) same))
Advance-todo _ _ (Advance.work true rest) changed = refl
Advance-todo _ _ (Advance.work false rest) changed = ground (arith, changed refl)
