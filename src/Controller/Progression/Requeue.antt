-- ===== src/Controller/Progression/Requeue.antt =====
-- What holds of the plan where a method asks to be run again at once: one rule for each way to
-- build a method.
pub mod Stages
pub mod Busy
pub mod Helm
pub mod Passes
use upgrade_controller.Prelude.{◌≡◌, refl, Bool, true, false, if◌then◌else◌, Bool-cases, inl, inr}
use upgrade_controller.Errors.{Result, ok, err, panic, Error, is_not_found}
use upgrade_controller.Api.UpgradePlan.{UpgradePlan}
use upgrade_controller.Controller.Effects.{
  Eff, State, CtrlResult, no_requeue, requeue_if, requeue_after_minute, effects, pure, lift, raise,
  if_found, on_get, continue, change_plan, ◌>>=◌, ◌>>◌,
}

-- Where the run of `m` ends in a request for another run at once, `D` holds of the plan.
pub record Requeues {W : Type 0} (D : UpgradePlan → Type 0) (m : Eff W CtrlResult) : Type 0 where
  pub at : (s : State W) → (m s).0 ≡ ok (requeue_if true) → D (m s).1.plan

module _ {W : Type 0} {D : UpgradePlan → Type 0} where
  -- Runs that never ask for another.
  pub Requeues-no_requeue : Requeues {W = W} D (pure no_requeue)
  unfolding effects
  Requeues-no_requeue = record { at = λ s h. let f : false ≡ true = cc in cc }

  pub Requeues-after_minute : Requeues {W = W} D (pure requeue_after_minute)
  unfolding effects
  Requeues-after_minute = record { at = λ s h. let f : false ≡ true = cc in cc }

  pub Requeues-raise : (error : Error) → Requeues {W = W} D (raise error)
  unfolding effects
  Requeues-raise error = record { at = λ s h. cc }

  -- A change of the plan, and the request.
  pub Requeues-change :
      (f : UpgradePlan → UpgradePlan) (b : Bool)
      → ((p : UpgradePlan) → b ≡ true → D (f p))
      → Requeues {W = W} D (change_plan f >> pure (requeue_if b))
  unfolding effects
  Requeues-change f b df = record { at = λ s h. df s.plan (let q : b ≡ true = cc in q) }

  pub Requeues-if :
      (b : Bool) (m n : Eff W CtrlResult)
      → Requeues D m
      → Requeues D n
      → Requeues D (if b then m else n)
  Requeues-if true m n dm dn = dm
  Requeues-if false m n dm dn = dn

  Requeues-continue :
      {A : Type 0} (r : Result A × State W) (k : A → Eff W CtrlResult)
      → ((a : A) → Requeues D (k a))
      → (continue r k).0 ≡ ok (requeue_if true)
      → D (continue r k).1.plan
  Requeues-continue (ok a, s) k dk h = (dk a).at s h
  Requeues-continue (err error, s) k dk h = cc
  Requeues-continue (panic text, s) k dk h = cc

  -- Only the last call of a sequence counts.
  pub Requeues-bind :
      {A : Type 0} (m : Eff W A) (k : A → Eff W CtrlResult)
      → ((a : A) → Requeues D (k a))
      → Requeues D (m >>= k)
  unfolding effects
  Requeues-bind m k dk = record { at = λ s h. Requeues-continue (m s) k dk h }

  Requeues-on_get :
      {A : Type 0} (r : Result A) (absent : Eff W CtrlResult) (found : A → Eff W CtrlResult)
      (s : State W)
      → Requeues D absent
      → ((a : A) → Requeues D (found a))
      → (on_get r absent found s).0 ≡ ok (requeue_if true)
      → D (on_get r absent found s).1.plan
  Requeues-on_get (ok a) absent found s da df h = (df a).at s h
  Requeues-on_get (panic text) absent found s da df h = cc
  Requeues-on_get (err error) absent found s da df h = go (is_not_found error) h
    where
      go :
          (b : Bool)
          → ((if b then absent s else (err error, s)).0) ≡ ok (requeue_if true)
          → D ((if b then absent s else (err error, s)).1.plan)
      go true h = da.at s h
      go false h = cc

  pub Requeues-if_found :
      {A : Type 0} (f : W → Result A) (absent : Eff W CtrlResult) (found : A → Eff W CtrlResult)
      → Requeues D absent
      → ((a : A) → Requeues D (found a))
      → Requeues D (if_found f absent found)
  unfolding effects
  Requeues-if_found f absent found da df = record {
    at = λ s h. Requeues-on_get (f s.world) absent found s da df h;
  }
