-- ===== src/Controller/Effects.antt =====
-- How a method of the reconciler runs. It reads and changes the cluster, changes the upgrade plan
-- that it was given by pointer, and may fail; the calls that change something are recorded, the
-- latest first.
pub mod Changes
pub mod Rules
pub mod Keeps
use upgrade_controller.Prelude.{ℕ, String, ◌++◌, Bool, false, List, ◌∷◌, if◌then◌else◌}
use upgrade_controller.Errors.{Result, ok, err, panic, Error, is_not_found, wrap}
use upgrade_controller.Kube.{Object, Plan, Secret, HelmChartResource, kind, metadata}
use upgrade_controller.Api.UpgradePlan.{UpgradePlan}
use upgrade_controller.Controller.Env.{Env}

pub record Event : Type 0 where
  pub type : String
  pub reason : String
  pub message : String

pub data Call : Type 0 where
  created : Object → Call
  updated_plan updated_status : UpgradePlan → Call
  updated_chart : HelmChartResource → Call
  deleted_plan : Plan → Call
  deleted_secret : Secret → Call
  event : Event → Call

-- ctrl.Result; `requeue_after` in seconds
pub record CtrlResult : Type 0 where
  pub requeue : Bool
  pub requeue_after : ℕ

abbrev pub no_requeue : CtrlResult
no_requeue = record { requeue = false; requeue_after = 0 }

abbrev pub requeue_if : Bool → CtrlResult
requeue_if b = record { requeue = b; requeue_after = 0 }

-- `ctrl.Result{RequeueAfter: 1 * time.Minute}`
abbrev pub requeue_after_minute : CtrlResult
requeue_after_minute = record { requeue = false; requeue_after = 60 }

pub record State (W : Type 0) : Type 0 where
  pub world : W
  pub plan : UpgradePlan
  pub trace : List Call

abbrev pub Eff : Type 0 → Type 0 → Type 0
Eff W A = State W → Result A × State W

module _ {W A : Type 0} where
  unfoldable pub pure : A → Eff W A
  pure a s = (ok a, s)

  unfoldable pub lift : Result A → Eff W A
  lift r s = (r, s)

  unfoldable pub raise : Error → Eff W A
  raise e s = (err e, s)

  -- a call that reads
  unfoldable pub ask : (W → Result A) → Eff W A
  ask f s = (f s.world, s)

  -- `fmt.Errorf("context: %w", err)` round a call
  abbrev pub outcome_in_context : String → Result A × State W → Result A × State W
  outcome_in_context c (err e, s) = (err (wrap c e), s)
  outcome_in_context c (r, s) = (r, s)

  unfoldable pub within : String → Eff W A → Eff W A
  within c m s = outcome_in_context c (m s)

module _ {W A B : Type 0} where
  abbrev pub continue : Result A × State W → (A → Eff W B) → Result B × State W
  continue (ok a, s) k = k a s
  continue (err e, s) k = (err e, s)
  continue (panic p, s) k = (panic p, s)

  infixl 5 ◌>>=◌ ◌>>◌
  unfoldable pub ◌>>=◌ : Eff W A → (A → Eff W B) → Eff W B
  ◌>>=◌ m k s = continue (m s) k

  abbrev pub ◌>>◌ : Eff W A → Eff W B → Eff W B
  m >> k = m >>= λ _. k

  -- `if err := r.Get(…); err != nil { if !IsNotFound(err) { return err }; absent }; found`
  abbrev pub on_get : Result A → Eff W B → (A → Eff W B) → Eff W B
  on_get (ok a) absent found s = found a s
  on_get (err e) absent found s = if is_not_found e then absent s else (err e, s)
  on_get (panic p) absent found s = (panic p, s)

  unfoldable pub if_found : (W → Result A) → Eff W B → (A → Eff W B) → Eff W B
  if_found f absent found s = on_get (f s.world) absent found s

module _ {W : Type 0} where
  -- a call that changes the cluster
  unfoldable pub act : Call → (W → Result (Unit {0}) × W) → Eff W (Unit {0})
  act call f s = let (r, w) = f s.world in (r, record s { world = w; trace = call ∷ s.trace })

  -- `r.Recorder.Eventf`
  unfoldable pub eventf : String → String → String → Eff W (Unit {0})
  eventf type reason message s = (
    ok tt,
    record s {
      trace = event (record { type = type; reason = reason; message = message }) ∷ s.trace;
    },
  )

  unfoldable pub the_plan : Eff W UpgradePlan
  the_plan s = (ok s.plan, s)

  unfoldable pub change_plan : (UpgradePlan → UpgradePlan) → Eff W (Unit {0})
  change_plan f s = (ok tt, record s { plan = f s.plan })

-- Unfolding this opens every way to build a method.
unfoldable pub effects : Unit {0}
unfolding pure lift raise ask within ◌>>=◌ if_found act eventf the_plan change_plan
effects = tt

module _ (e : Env) where
  open e use {World}

  unfoldable pub create_object : Object → Eff World (Unit {0})
  create_object o = do
    act (created o) (e.create o)
    eventf "Normal" (kind o ++ "Created")
        (kind o ++ " created: " ++ (metadata o).namespace ++ "/" ++ (metadata o).name)
