-- ===== src/Controller/Effects/Keeps.antt =====
-- Invariants of runs: one rule for each way to build a method.
use upgrade_controller.Prelude.{
  ℕ, zero, suc, ◌≤◌, ◌≡◌, refl, Bool, true, false, if◌then◌else◌, Bool-cases, inl, inr,
}
use upgrade_controller.Errors.{Result, ok, err, panic, Error, is_not_found}
use upgrade_controller.Controller.Env.{Env}
use upgrade_controller.Controller.Effects.{
  Eff, State, effects, pure, lift, raise, ask, if_found, on_get, continue, ◌>>=◌, ◌>>◌,
}

-- The run of `m` keeps `P`, whether it returns, fails or panics.
pub record Keeps {W A : Type 0} (P : State W → Type 0) (m : Eff W A) : Type 0 where
  pub at : (s : State W) → P s → P (m s).1

module _ {W A : Type 0} {P : State W → Type 0} where
  -- What only answers keeps everything.
  pub Keeps-ask : (f : W → Result A) → Keeps P (ask f)
  unfolding effects
  Keeps-ask f = record { at = λ s holds. holds }

  pub Keeps-lift : (r : Result A) → Keeps P (lift r)
  unfolding effects
  Keeps-lift r = record { at = λ s holds. holds }

  pub Keeps-pure : (a : A) → Keeps P (pure a)
  unfolding effects
  Keeps-pure a = record { at = λ s holds. holds }

  pub Keeps-raise : (error : Error) → Keeps P (raise {A = A} error)
  unfolding effects
  Keeps-raise error = record { at = λ s holds. holds }

  pub Keeps-if : (b : Bool) (m n : Eff W A) → Keeps P m → Keeps P n → Keeps P (if b then m else n)
  Keeps-if true m n km kn = km
  Keeps-if false m n km kn = kn

module _ {W A B : Type 0} {P : State W → Type 0} where
  Keeps-continue :
      (r : Result A × State W) (k : A → Eff W B)
      → P r.1
      → ((a : A) → r.0 ≡ ok a → Keeps P (k a))
      → P (continue r k).1
  Keeps-continue (ok a, s) k h kk = (kk a refl).at s h
  Keeps-continue (err e, s) k h kk = h
  Keeps-continue (panic p, s) k h kk = h

  pub Keeps-bind :
      (m : Eff W A) (k : A → Eff W B) → Keeps P m → ((a : A) → Keeps P (k a)) → Keeps P (m >>= k)
  unfolding effects
  Keeps-bind m k km kk = record { at = λ s h. Keeps-continue (m s) k (km.at s h) (λ a q. kk a) }

  pub Keeps-then : (m : Eff W A) (k : Eff W B) → Keeps P m → Keeps P k → Keeps P (m >> k)
  Keeps-then m k km kk = Keeps-bind m (λ a. k) km (λ a. kk)

  -- The rest may use that the call succeeded.
  pub Keeps-lift-bind :
      (r : Result A) (k : A → Eff W B)
      → ((a : A) → r ≡ ok a → Keeps P (k a))
      → Keeps P (lift r >>= k)
  unfolding effects
  Keeps-lift-bind r k kk = record { at = λ s h. Keeps-continue (r, s) k h kk }

  Keeps-on_get :
      (r : Result A) (absent : Eff W B) (found : A → Eff W B) (s : State W)
      → P s
      → Keeps P absent
      → ((a : A) → Keeps P (found a))
      → P (on_get r absent found s).1
  Keeps-on_get (ok a) absent found s h ka kf = (kf a).at s h
  Keeps-on_get (panic p) absent found s h ka kf = h
  Keeps-on_get (err e) absent found s h ka kf = elim (Bool-cases (is_not_found e)) [
    | inl missing ↦ rw missing (ka.at s h)
    | inr other ↦ rw other h
  ]

  pub Keeps-if_found :
      (f : W → Result A) (absent : Eff W B) (found : A → Eff W B)
      → Keeps P absent
      → ((a : A) → Keeps P (found a))
      → Keeps P (if_found f absent found)
  unfolding effects
  Keeps-if_found f absent found ka kf = record {
    at = λ s h. Keeps-on_get (f s.world) absent found s h ka kf;
  }

-- what follows an attempt
abbrev pub again :
    {S : Type 0} → Result (Unit {0}) × S → (S → Result (Unit {0}) × S) → Result (Unit {0}) × S
again (ok u, s) next = (ok u, s)
again (panic p, s) next = (panic p, s)
again (err error, s) next = next s

-- Up to `k` more attempts behind the first, until one succeeds.
unfoldable pub attempts : {S : Type 0} → ℕ → (S → Result (Unit {0}) × S) → S → Result (Unit {0}) × S
attempts zero f s = f s
attempts (suc k) f s = again (f s) (attempts k f)

-- With one step or more, `retry.OnError` makes at least one attempt and at most one for each step.
pub record RetryLaws (e : Env) : Type 1 where
  pub attempts_lem :
      (more : ℕ) (S : Type 0) (f : S → Result (Unit {0}) × S) (s : S)
      → (k : ℕ) × (k ≤ more) × (e.retry_on_error (suc more) S f s ≡ attempts k f s)

module _ {W : Type 0} {P : State W → Type 0} where
  attempts-Keeps : (k : ℕ) (m : Eff W (Unit {0})) → Keeps P m → Keeps P (attempts k m)
  unfolding attempts
  attempts-Keeps zero m km = km
  attempts-Keeps (suc k) m km = record { at = λ s h. go (m s) (km.at s h) (attempts-Keeps k m km) }
    where
      go :
          (r : Result (Unit {0}) × State W)
          → P r.1
          → Keeps P (attempts k m)
          → P (again r (attempts k m)).1
      go (ok u, s) h ih = h
      go (panic p, s) h ih = h
      go (err error, s) h ih = ih.at s h

pub Keeps-retry :
    (e : Env) (laws : RetryLaws e) {P : State e.World → Type 0} (more : ℕ)
    (m : Eff e.World (Unit {0}))
    → Keeps P m
    → Keeps P (e.retry_on_error (suc more) (State e.World) m)
Keeps-retry e laws {P} more m km = record {
  at = λ s h.
      let (k, few, same) = laws.attempts_lem more (State e.World) m s in
      rw same ((attempts-Keeps k m km).at s h);
}
