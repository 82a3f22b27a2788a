-- ===== src/Controller/Effects/Rules.antt =====
-- How to prove something of a run: one rule for each way that the methods go on.
use upgrade_controller.Prelude.{◌≡◌, refl, true, String, Bool-cases, inl, inr}
use upgrade_controller.Errors.{Result, ok, err, panic, Error, is_not_found}
use upgrade_controller.Api.UpgradePlan.{UpgradePlan}
use upgrade_controller.Controller.Effects.{
  Eff, State, effects, lift, if_found, on_get, continue, pure, lift, raise, ask, the_plan, ◌>>=◌,
}

module _ {κ} {W A B : Type 0} (C : Result B × State W → Type κ) where
  -- `r.Get` and its two branches
  pub if_found_rule :
      (f : W → Result A) (absent : Eff W B) (found : A → Eff W B) (s : State W)
      → ((error : Error) → f s.world ≡ err error → is_not_found error ≡ true → C (absent s))
      → ((a : A) → f s.world ≡ ok a → C (found a s))
      → ((error : Error) → C (err error, s))
      → ((p : String) → C (panic p, s))
      → C (if_found f absent found s)
  unfolding effects
  if_found_rule f absent found s on_absent on_found on_error on_panic = go (f s.world) refl
    where
      go : (r : Result A) → f s.world ≡ r → C (on_get r absent found s)
      go (ok a) q = on_found a q
      go (panic p) q = on_panic p
      go (err error) q = elim (Bool-cases (is_not_found error)) [
        | inl missing ↦ rw missing (on_absent error q missing)
        | inr other ↦ rw other (on_error error)
      ]

  -- a fallible pure call
  pub lift_rule :
      (r : Result A) (k : A → Eff W B) (s : State W)
      → ((a : A) → r ≡ ok a → C (k a s))
      → ((error : Error) → C (err error, s))
      → ((p : String) → C (panic p, s))
      → C ((lift r >>= k) s)
  unfolding effects
  lift_rule (ok a) k s on_ok on_error on_panic = on_ok a refl
  lift_rule (err error) k s on_ok on_error on_panic = on_error error
  lift_rule (panic p) k s on_ok on_error on_panic = on_panic p

-- A sequence that succeeds had a success before it, and goes on from there.
pub bind_succeeded :
    {W A B : Type 0} (m : Eff W A) (k : A → Eff W B) (s : State W) {b : B}
    → ((m >>= k) s).0 ≡ ok b
    → (a : A) × (after : State W) × (m s ≡ (ok a, after))
      × ((k a after).0 ≡ ok b)
      × ((m >>= k) s ≡ k a after)
unfolding effects
bind_succeeded {W} {A} {B} m k s {b} = go (m s) refl
  where
    go :
        (r : Result A × State W)
        → m s ≡ r
        → (continue r k).0 ≡ ok b
        → (a : A) × (after : State W) × (r ≡ (ok a, after))
          × ((k a after).0 ≡ ok b)
          × (continue r k ≡ k a after)
    go (ok a, after) q h = (a, after, refl, h, refl)
    go (err error, after) q h = cc
    go (panic p, after) q h = cc

-- A read that succeeds changes nothing.
pub ask_succeeded :
    {W A B : Type 0} (f : W → Result A) (k : A → Eff W B) (s : State W) {b : B}
    → ((ask f >>= k) s).0 ≡ ok b
    → (a : A) × (f s.world ≡ ok a) × ((k a s).0 ≡ ok b) × ((ask f >>= k) s ≡ k a s)
unfolding effects
ask_succeeded {W} {A} {B} f k s {b} = go (f s.world) refl
  where
    go :
        (r : Result A)
        → f s.world ≡ r
        → (continue (r, s) k).0 ≡ ok b
        → (a : A) × (r ≡ ok a) × ((k a s).0 ≡ ok b) × (continue (r, s) k ≡ k a s)
    go (ok a) q h = (a, refl, h, refl)
    go (err error) q h = cc
    go (panic p) q h = cc

pub bind_the_plan :
    {W B : Type 0} (k : UpgradePlan → Eff W B) (s : State W) → (the_plan >>= k) s ≡ k s.plan s
unfolding effects
bind_the_plan k s = refl

pub bind_pure : {W A B : Type 0} (a : A) (k : A → Eff W B) (s : State W) → (pure a >>= k) s ≡ k a s
unfolding effects
bind_pure a k s = refl

pub pure_lem : {W A : Type 0} (a : A) (s : State W) → pure a s ≡ (ok a, s)
unfolding effects
pure_lem a s = refl

pub lift_lem : {W A : Type 0} (r : Result A) (s : State W) → lift r s ≡ (r, s)
unfolding effects
lift_lem r s = refl

pub raise_lem :
    {W A : Type 0} (error : Error) (s : State W) → raise {A = A} error s ≡ (err error, s)
unfolding effects
raise_lem error s = refl
