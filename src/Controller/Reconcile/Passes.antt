-- ===== src/Controller/Reconcile/Passes.antt =====
-- `Reconcile` of one plan: what it writes, in which order, and what it returns.
use upgrade_controller.Prelude.{
  String, ◌≡◌, ◌≢◌, refl, ap, sym, ◌∙◌, Bool, true, false, List, [], ◌∷◌, map, All, none,
  Bool-cases, inl, inr,
}
use upgrade_controller.Errors.{Result, ok, err, panic, is_upgrade_in_progress}
use upgrade_controller.Kube.{Plan, Secret, is_zero}
use upgrade_controller.Api.UpgradePlan.{UpgradePlan, upgrade_plan_finalizer}
use upgrade_controller.Controller.Env.{Env}
use upgrade_controller.Controller.Effects.{
  Call, deleted_plan, deleted_secret, updated_plan, updated_status, State, CtrlResult, no_requeue,
  effects,
}
use upgrade_controller.Controller.Routing.{Routes}
use upgrade_controller.Controller.Reconcile.{reconcile_delete, reconcile_normal}
use upgrade_controller.Controller.Reconcile.Loop.{
  Return, returned, panicked, set_finalizers, update_plan, after_delete, reconcile_plan,
}
use upgrade_controller.Controller.Reconcile.Deletion.{
  IsIdle, objects_of, IsSafeDeletion, Deleting, delete-Safe, after_calls, deletion_complete,
}

module _ (e : Env) (s : State e.World) where
  abbrev pub has_finalizer : Bool
  has_finalizer = e.finalizers.contains_finalizer s.plan.metadata.finalizers upgrade_plan_finalizer

  -- The passes over a plan that is not being deleted: the return, and the calls, the latest first.
  pub data LivePass : Return → List Call → Type 0 where
    -- the finalizer is added, and nothing else is done
    adopted :
        (r : Return)
        → has_finalizer ≡ false
        → LivePass r (updated_plan (set_finalizers e e.finalizers.add_finalizer s.plan) ∷ [])
    -- The status is written last; success is returned only where `reconcileNormal` succeeded.
    reconciled :
        (r : Return) (p : UpgradePlan) (calls : List Call)
        → has_finalizer ≡ true
        → p.metadata ≡ s.plan.metadata
        → All (Routes s.plan.metadata) calls
        → ((result : CtrlResult) → r ≡ returned result none → (reconcile_normal e s).0 ≡ ok result)
        → LivePass r (updated_status p ∷ calls)
    broken :
        (text : String) (calls : List Call)
        → All (Routes s.plan.metadata) calls
        → LivePass (panicked text) calls

  -- The passes over a plan that is being deleted.
  pub data DeletionPass : Return → List Call → Type 0 where
    unowned : has_finalizer ≡ false → DeletionPass (returned no_requeue none) []
    -- The finalizer is removed after every SUC plan and every secret of the plan.
    released :
        (r : Return) (plans : List Plan) (secrets : List Secret) (w : e.World)
        → e.list_plans (objects_of s.plan) s.world ≡ ok plans
        → e.list_secrets (objects_of s.plan) w ≡ ok secrets
        → All IsIdle plans
        → DeletionPass r (
            updated_plan (set_finalizers e e.finalizers.remove_finalizer s.plan)
            ∷ after_calls (map deleted_secret secrets) (after_calls (map deleted_plan plans) []))
    -- `reconcileDelete` did not succeed: the finalizer stays.
    stopped :
        (r : Return) (calls : List Call)
        → (reconcile_delete e s).0 ≢ ok tt
        → All IsSafeDeletion calls
        → DeletionPass r calls

  deletion_pass :
      s.trace ≡ []
      → DeletionPass
          (after_delete e (reconcile_delete e s)).0
          (after_delete e (reconcile_delete e s)).1.trace
  unfolding effects after_delete update_plan
  deletion_pass start =
      go (reconcile_delete e s) refl
        ((delete-Safe e).at s (record { kept = refl; safe = rw start tt }))
    where
      failed :
          {r : Result (Unit {0})} {after : State e.World}
          → reconcile_delete e s ≡ (r, after)
          → (reconcile_delete e s).0 ≡ ok tt
          → r ≡ ok tt
      failed q done = sym (ap (λ r. r.0) q) ∙ done

      go :
          (r : Result (Unit {0}) × State e.World)
          → reconcile_delete e s ≡ r
          → Deleting s.plan r.1
          → DeletionPass (after_delete e r).0 (after_delete e r).1.trace
      go (ok u, s') q h =
          let (plans, secrets, w, listed, listed_secrets, idle, traced) =
            deletion_complete e s (ap (λ r. r.0) q) in
          let traced' = sym (ap (λ r. r.1.trace) q) ∙ traced in
          rw (h.kept, traced', start)
            (DeletionPass.released _ plans secrets w listed listed_secrets idle)
      go (err error, s') q h = elim (Bool-cases (is_upgrade_in_progress error)) [
        | inl busy ↦
            rw busy (DeletionPass.stopped _ s'.trace (λ done. let f = failed q done in cc) h.safe)
        | inr other ↦
            rw other (DeletionPass.stopped _ s'.trace (λ done. let f = failed q done in cc) h.safe)
      ]
      go (panic text, s') q h =
          DeletionPass.stopped _ s'.trace (λ done. let f = failed q done in cc) h.safe

-- Reconciling a plan that is being deleted deletes no SUC plan with a job that is applying, and
-- removes the finalizer only behind the deletion of every SUC plan and every secret that carries
-- the plan's labels.
pub reconcile_plan-DeletionPass :
    (e : Env) (s : State e.World)
    → is_zero s.plan.metadata.deletion_timestamp ≡ false
    → s.trace ≡ []
    → DeletionPass e s (reconcile_plan e s).0 (reconcile_plan e s).1.trace
unfolding reconcile_plan
reconcile_plan-DeletionPass e s deleted start = elim (Bool-cases (has_finalizer e s)) [
  | inl owned ↦ rw (deleted, owned) (deletion_pass e s start)
  | inr free ↦ rw (deleted, free, start) (DeletionPass.unowned free)
]
