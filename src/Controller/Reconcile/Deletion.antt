-- ===== src/Controller/Reconcile/Deletion.antt =====
-- `reconcileDelete`: which objects it deletes, and when it succeeds.
use upgrade_controller.Prelude.{
  String, ◌≡◌, refl, ◌∙◌, ap, sym, true, List, [], ◌∷◌, map, All, is_empty, Bool-cases, inl, inr,
  arith,
}
use upgrade_controller.Errors.{Result, ok, err, panic, ok_of_in_context, upgrade_in_progress, Error}
use upgrade_controller.Kube.{Plan, Secret, ListOptions}
use upgrade_controller.Api.UpgradePlan.{UpgradePlan}
use upgrade_controller.Controller.Env.{Env}
use upgrade_controller.Controller.Effects.{
  Call, deleted_plan, deleted_secret, Eff, State, effects, within, act, continue,
  outcome_in_context, the_plan, pure, raise, ◌>>=◌,
}
use upgrade_controller.Controller.Effects.Keeps.{
  Keeps, Keeps-pure, Keeps-raise, Keeps-ask, Keeps-bind, Keeps-then,
}
use upgrade_controller.Controller.Effects.Rules.{bind_succeeded, ask_succeeded, bind_the_plan}
use upgrade_controller.Controller.Reconcile.{delete_plans, delete_secrets, reconcile_delete}

-- no job of the SUC plan is applying
abbrev pub IsIdle : Plan → Type 0
IsIdle p = p.applying ≡ []

-- what the trace is after calls that succeeded, the first of them first
abbrev pub after_calls : List Call → List Call → List Call
after_calls [] trace = trace
after_calls (c ∷ calls) trace = after_calls calls (c ∷ trace)

-- the objects in the SUC namespace with the labels of an upgrade plan
abbrev pub objects_of : UpgradePlan → ListOptions
objects_of owner = record {
  namespace = "cattle-system";
  match_labels =
      ("lifecycle.suse.com/upgrade-plan-name", owner.metadata.name)
      ∷ ("lifecycle.suse.com/upgrade-plan-namespace", owner.metadata.namespace)
      ∷ [];
}

-- the deletion of an idle SUC plan or of a secret
abbrev pub IsSafeDeletion : Call → Type 0
IsSafeDeletion (deleted_plan p) = IsIdle p
IsSafeDeletion (deleted_secret s) = Unit
IsSafeDeletion _ = ⊥

-- The plan is the one given, and only safe deletions were made.
pub record Deleting {W : Type 0} (p : UpgradePlan) (s : State W) : Type 0 where
  pub kept : s.plan ≡ p
  pub safe : All IsSafeDeletion s.trace

IsIdle-of_is_empty : (p : Plan) → is_empty p.applying ≡ true → IsIdle p
IsIdle-of_is_empty p h = ground arith

module _ (e : Env) {p : UpgradePlan} where
  delete-Deleting :
      (context : String) (call : Call) (f : e.World → Result (Unit {0}) × e.World)
      → IsSafeDeletion call
      → Keeps (Deleting p) (within context (act call f))
  unfolding effects
  delete-Deleting context call f safe = record { at = λ s h. go (f s.world) s h }
    where
      go :
          (r : Result (Unit {0}) × e.World) (s : State e.World)
          → Deleting p s
          → Deleting p
              (outcome_in_context context (r.0, record s { world = r.1; trace = call ∷ s.trace })).1
      go (ok u, w) s h = record { kept = h.kept; safe = (safe, h.safe) }
      go (err error, w) s h = record { kept = h.kept; safe = (safe, h.safe) }
      go (panic q, w) s h = record { kept = h.kept; safe = (safe, h.safe) }

  the_plan-Deleting : Keeps (Deleting p) (the_plan {W = e.World})
  unfolding effects
  the_plan-Deleting = record { at = λ s h. h }

  plans-Deleting : (ps : List Plan) → Keeps (Deleting p) (delete_plans e ps)
  unfolding delete_plans
  plans-Deleting [] = Keeps-pure _
  plans-Deleting (q ∷ rest) = elim (Bool-cases (is_empty q.applying)) [
    | inl idle ↦
        rw idle
          (Keeps-then _ _ (delete-Deleting _ _ _ (IsIdle-of_is_empty q idle)) (plans-Deleting rest))
    | inr busy ↦ rw busy (Keeps-raise _)
  ]

  secrets-Deleting : (ss : List Secret) → Keeps (Deleting p) (delete_secrets e ss)
  unfolding delete_secrets
  secrets-Deleting [] = Keeps-pure _
  secrets-Deleting (x ∷ rest) = Keeps-then _ _ (delete-Deleting _ _ _ tt) (secrets-Deleting rest)

  pub delete-Safe : Keeps (Deleting p) (reconcile_delete e)
  unfolding reconcile_delete
  delete-Safe = Keeps-bind _ _ (the_plan-Deleting) λ owner.
      Keeps-bind _ _ (Keeps-ask _) λ plans.
        Keeps-then _ _ (plans-Deleting plans) (Keeps-bind _ _ (Keeps-ask _) secrets-Deleting)

-- a call's run that succeeded
call_succeeded :
    {W : Type 0} (context : String) (call : Call) (f : W → Result (Unit {0}) × W)
    (rest : Eff W (Unit {0})) (s : State W)
    → ((within context (act call f) >>= λ u. rest) s).0 ≡ ok tt
    → (w : W) × ((rest (record s { world = w; trace = call ∷ s.trace })).0 ≡ ok tt)
      × ((within context (act call f) >>= λ u. rest) s
          ≡ rest (record s { world = w; trace = call ∷ s.trace }))
unfolding effects
call_succeeded {W} context call f rest s = go (f s.world) refl
  where
    go :
        (r : Result (Unit {0}) × W)
        → f s.world ≡ r
        → (continue
            (outcome_in_context context (r.0, record s { world = r.1; trace = call ∷ s.trace }))
            (λ u. rest)).0
          ≡ ok tt
        → (w : W) × ((rest (record s { world = w; trace = call ∷ s.trace })).0 ≡ ok tt)
          × (continue
                (outcome_in_context context (r.0, record s { world = r.1; trace = call ∷ s.trace }))
                (λ u. rest)
              ≡ rest (record s { world = w; trace = call ∷ s.trace }))
    go (ok u, w) q h = (w, h, refl)
    go (err error, w) q h = cc
    go (panic m, w) q h = cc

pure_lem : {W A : Type 0} (a : A) (s : State W) → pure a s ≡ (ok a, s)
unfolding effects
pure_lem a s = refl

raise_fails :
    {W A : Type 0} (error : Error) (s : State W) {a : A} {κ : Type 0} → (raise error s).0 ≡ ok a → κ
unfolding effects
raise_fails error s h = cc

module _ (e : Env) where
  secrets_deleted :
      (ss : List Secret) (s : State e.World)
      → (delete_secrets e ss s).0 ≡ ok tt
      → (delete_secrets e ss s).1.trace ≡ after_calls (map deleted_secret ss) s.trace
  unfolding delete_secrets
  secrets_deleted [] s h = rw (pure_lem tt s) refl
  secrets_deleted (x ∷ rest) s h =
      let (w, ok_rest, same) = call_succeeded _ _ _ _ s h in
      rw same (secrets_deleted rest _ ok_rest)

  plans_deleted :
      (ps : List Plan) (s : State e.World)
      → (delete_plans e ps s).0 ≡ ok tt
      → All IsIdle ps
        × ((delete_plans e ps s).1.trace ≡ after_calls (map deleted_plan ps) s.trace)
        × ((delete_plans e ps s).1.plan ≡ s.plan)
  unfolding delete_plans
  plans_deleted [] s h = rw (pure_lem tt s) (tt, refl, refl)
  plans_deleted (q ∷ rest) s h = elim (Bool-cases (is_empty q.applying)) [
    | inl idle ↦
        let (w, ok_rest, same) = call_succeeded _ _ _ _ s (rw idle at h) in
        let (idles, traced, kept) = plans_deleted rest _ ok_rest in
        rw (idle, same) ((IsIdle-of_is_empty q idle, idles), traced, kept)
    | inr busy ↦ raise_fails upgrade_in_progress s (rw busy at h)
  ]

-- `reconcileDelete` succeeds only after it has deleted every SUC plan and then every secret with
-- the upgrade plan's labels in the SUC namespace, all of these SUC plans idle.
pub deletion_complete :
    (e : Env) (s : State e.World)
    → (reconcile_delete e s).0 ≡ ok tt
    → (plans : List Plan) × (secrets : List Secret) × (w : e.World) × (e.list_plans
          (objects_of s.plan)
          s.world
        ≡ ok plans)
      × (e.list_secrets (objects_of s.plan) w ≡ ok secrets)
      × All IsIdle plans
      × ((reconcile_delete e s).1.trace
          ≡ after_calls (map deleted_secret secrets) (after_calls (map deleted_plan plans) s.trace))
unfolding reconcile_delete
deletion_complete e s h =
    let (plans, listed, h1, same1) = ask_succeeded _ _ s (rw bind_the_plan at h) in
    let (u, s2, q2, h2, same2) = bind_succeeded (delete_plans e plans) _ s h1 in
    let (idle, traced, kept) = plans_deleted e plans s (ap (λ r. r.0) q2) in
    let (secrets, listed_secrets, h3, same3) = ask_succeeded _ (delete_secrets e) s2 h2 in
    let traced_secrets = secrets_deleted e secrets s2 h3 in
    let before = sym (ap (λ r. r.1.trace) q2) ∙ traced in
    (
      plans,
      secrets,
      s2.world,
      ok_of_in_context _ _ listed,
      ok_of_in_context _ _ listed_secrets,
      idle,
      rw (bind_the_plan, same1, same2, same3, traced_secrets, before) refl,
    )
