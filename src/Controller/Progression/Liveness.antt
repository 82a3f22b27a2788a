-- ===== src/Controller/Progression/Liveness.antt =====
-- An upgrade ends: in a cluster where everything is done, the passes that ask for each other record
-- the release as the last successful one.
use upgrade_controller.Prelude.{
  ℕ, zero, suc, ◌≤◌, ◌+◌, ◌≡◌, refl, ◌∙◌, Bool, true, false, List, [], ◌∷◌, length, arith,
  Bool-cases, inl, inr, if◌then◌else◌,
}
use upgrade_controller.Errors.{Result, ok, err, panic}
use upgrade_controller.Api.UpgradePlan.{UpgradePlan}
use upgrade_controller.Api.ReleaseManifest.{HelmChart, ReleaseManifestSpec}
use upgrade_controller.Controller.Env.{Env, ConditionOps}
use upgrade_controller.Controller.Effects.{State, CtrlResult, no_requeue}
use upgrade_controller.Controller.Conditions.{is_helm_upgrade_finished}
use upgrade_controller.Controller.Conditions.Laws.{ConditionLaws, has_true}
use upgrade_controller.Controller.Reconcile.{reconcile_normal}
use upgrade_controller.Controller.Reconcile.Stages.{chart_finished}
use upgrade_controller.Controller.Os.{os_stage}
use upgrade_controller.Controller.Kubernetes.{k8s_stage}
use upgrade_controller.Controller.Progression.{todo}
use upgrade_controller.Controller.Progression.Flags.{chart_flags, stage_flags, TypesDistinct}
use upgrade_controller.Controller.Progression.Settled.Passes.{
  Settled, Settled-SameOwner, SettledPass, normal-SettledPass,
}

-- what follows a pass: the next one where the pass asked for it and did not fail
abbrev pub next_pass :
    {S : Type 0} → Result CtrlResult × S → (S → Result CtrlResult × S) → Result CtrlResult × S
next_pass (ok result, s) next = if result.requeue then next s else (ok result, s)
next_pass (err error, s) next = (err error, s)
next_pass (panic text, s) next = (panic text, s)

-- A pass, and up to `n` more of those that are asked for, each from what the one before it leaves: the
-- plan's status is written behind each pass and read at the next.
unfoldable pub requeued_passes :
    {S : Type 0} → (S → Result CtrlResult × S) → ℕ → S → Result CtrlResult × S
requeued_passes pass zero s = pass s
requeued_passes pass (suc n) s = next_pass (pass s) (requeued_passes pass n)

-- The release is recorded in a cluster that is as it was, and no other pass is asked for.
pub record Recorded (e : Env) (release : ReleaseManifestSpec) (s : State e.World)
    (r : Result CtrlResult × State e.World) : Type 0 where
  pub ended : r.0 ≡ ok no_requeue
  pub same_world : r.1.world ≡ s.world
  pub release_lem : r.1.plan.status.last_successful_release_version ≡ release.release_version
  pub nothing_left : todo (stage_flags e.conditions release.components.helm r.1.plan) ≡ 0

module _ (e : Env) (laws : ConditionLaws e.conditions) (release : ReleaseManifestSpec)
    (distinct : TypesDistinct release.components.helm) where
  abbrev passes : ℕ → State e.World → Result CtrlResult × State e.World
  passes n s = requeued_passes (reconcile_normal e) n s

  first-Recorded :
      (s : State e.World) (r : Result CtrlResult × State e.World)
      → todo (stage_flags e.conditions release.components.helm s.plan) ≡ 0
      → SettledPass e release s r
      → Recorded e release s r
  first-Recorded s _ none_left (SettledPass.stepped w owner observed more) = ground arith
  first-Recorded s _ none_left (SettledPass.recorded w version left) = record {
    ended = refl;
    same_world = w;
    release_lem = version;
    nothing_left = left;
  }

  -- A pass that is followed by enough passes.
  next-Recorded :
      (n : ℕ) (s : State e.World) (r : Result CtrlResult × State e.World)
      → Settled e release s.world s.plan
      → todo (stage_flags e.conditions release.components.helm s.plan) ≤ suc n
      → ((s' : State e.World)
          → Settled e release s'.world s'.plan
          → todo (stage_flags e.conditions release.components.helm s'.plan) ≤ n
          → Recorded e release s' (passes n s'))
      → SettledPass e release s r
      → Recorded e release s (next_pass r (passes n))
  next-Recorded n s _ settled few go_on (SettledPass.recorded w version left) = record {
    ended = refl;
    same_world = w;
    release_lem = version;
    nothing_left = left;
  }
  next-Recorded n s _ settled few go_on (SettledPass.stepped {after} w owner observed more) =
      let behind =
        go_on after (rw w (Settled-SameOwner e release s.world _ _ owner observed settled))
          (ground arith) in
      record {
        ended = behind.ended;
        same_world = behind.same_world ∙ w;
        release_lem = behind.release_lem;
        nothing_left = behind.nothing_left;
      }

  passes-Recorded :
      (n : ℕ) (s : State e.World)
      → Settled e release s.world s.plan
      → todo (stage_flags e.conditions release.components.helm s.plan) ≤ n
      → Recorded e release s (passes n s)
  unfolding requeued_passes
  passes-Recorded zero s settled few =
      first-Recorded s _ (ground arith) (normal-SettledPass e laws release distinct s settled)
  passes-Recorded (suc n) s settled few =
      next-Recorded n s _ settled few (passes-Recorded n)
        (normal-SettledPass e laws release distinct s settled)

chart_flags-bound :
    (ops : ConditionOps) (p : UpgradePlan) (helm : List HelmChart)
    → todo (chart_flags ops p helm) ≤ length helm
unfolding is_helm_upgrade_finished
chart_flags-bound ops p [] = ground arith
chart_flags-bound ops p (chart ∷ rest) = elim (Bool-cases (chart_finished ops p chart)) [
  | inl done ↦ rw done (let b = chart_flags-bound ops p rest in ground arith)
  | inr opened ↦ rw opened (let b = chart_flags-bound ops p rest in ground arith)
]

stage_flags-bound :
    (ops : ConditionOps) (p : UpgradePlan) (helm : List HelmChart)
    → todo (stage_flags ops helm p) ≤ 2 + length helm
stage_flags-bound ops p helm =
    go (has_true ops p os_stage) (has_true ops p k8s_stage) (chart_flags-bound ops p helm)
  where
    go :
        (os k8s : Bool)
        → todo (chart_flags ops p helm) ≤ length helm
        → todo (os ∷ k8s ∷ chart_flags ops p helm) ≤ 2 + length helm
    go true true b = ground arith
    go true false b = ground arith
    go false true b = ground arith
    go false false b = ground arith

-- Where the plan's generation is observed and all of its release is done in the cluster, the passes
-- of `reconcileNormal` that ask for each other end after at most three and one for each chart,
-- without an error: they record the release as the last successful one, with both stages upgraded
-- and every chart finished, and leave the cluster as it is. The stages and charts have condition
-- types of their own, and conditions work as Kubernetes documents.
pub requeued_passes-Recorded :
    (e : Env) (laws : ConditionLaws e.conditions) (release : ReleaseManifestSpec)
    (distinct : TypesDistinct release.components.helm) (s : State e.World)
    → Settled e release s.world s.plan
    → Recorded e release s
        (requeued_passes (reconcile_normal e) (2 + length release.components.helm) s)
requeued_passes-Recorded e laws release distinct s settled =
    passes-Recorded e laws release distinct (2 + length release.components.helm) s settled
      (stage_flags-bound e.conditions s.plan release.components.helm)
