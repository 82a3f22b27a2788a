-- ===== src/Controller/Progression/Passes.antt =====
-- A pass of the controller over a release is a step of the abstract machine.
use upgrade_controller.Prelude.{
  ℕ, String, ◌≡◌, refl, ◌∙◌, true, false, List, nat_eq, Bool-cases, inl, inr, arith,
}
use upgrade_controller.Kube.{Node, condition_true}
use upgrade_controller.Api.UpgradePlan.{
  UpgradePlan, operating_system_upgraded_condition, kubernetes_upgraded_condition,
  validation_failed_condition, unsupported_architecture_reason,
}
use upgrade_controller.Api.ReleaseManifest.{HelmChart, ReleaseManifestSpec}
use upgrade_controller.Controller.Env.{Env, ConditionOps}
use upgrade_controller.Controller.Effects.{State}
use upgrade_controller.Controller.Effects.Keeps.{
  Keeps, Keeps-pure, Keeps-if, Keeps-bind, Keeps-then,
}
use upgrade_controller.Controller.Frame.{OnPlan, the_plan-OnPlan, change-OnPlan}
use upgrade_controller.Controller.Conditions.{set_condition, set_pending_condition}
use upgrade_controller.Controller.Conditions.Laws.{ConditionLaws}
use upgrade_controller.Controller.Reconcile.{
  start_generation, observe_generation, reconcile_supported, reconcile_release,
}
use upgrade_controller.Controller.Reconcile.Generation.{
  charts_pending-metadata, start_generation-Restarted,
}
use upgrade_controller.Controller.Reconcile.Release.{suffix-OnPlan, reconcile_release_rule}
use upgrade_controller.Controller.Reconcile.Stages.{reconcile_stage-StagePass}
use upgrade_controller.Controller.Progression.{Advance, Cleared}
use upgrade_controller.Controller.Progression.Flags.{
  stage_flags, TypesDistinct, SameBut-refl, SameBut-ConditionFrame, chart_flags-SameBut,
  has_true-SameBut, chart_flags-Cleared,
}
use upgrade_controller.Controller.Progression.Refinement.{is_observed, stage-Advanced}

-- What a pass may do to the plan, by its flags.
pub data ReleasePass (ops : ConditionOps) (release : ReleaseManifestSpec)
    (before after : UpgradePlan) : Type 0 where
  -- It works on the first that is not finished, in an observed generation,
  advanced :
      is_observed before ≡ true
      → is_observed after ≡ true
      → Advance
          (stage_flags ops release.components.helm before)
          (stage_flags ops release.components.helm after)
      → ReleasePass ops release before after
  -- or observes a new generation, for which nothing is finished,
  restarted :
      is_observed before ≡ false
      → is_observed after ≡ true
      → Cleared (stage_flags ops release.components.helm after)
      → ReleasePass ops release before after
  -- or stops before either.
  stopped :
      is_observed after ≡ is_observed before
      → stage_flags ops release.components.helm after
        ≡ stage_flags ops release.components.helm before
      → ReleasePass ops release before after

start_generation-metadata :
    (e : Env) (helm : List HelmChart) (suffix : String) (p : UpgradePlan)
    → (start_generation e helm suffix p).metadata ≡ p.metadata
unfolding start_generation set_pending_condition
start_generation-metadata e helm suffix p = charts_pending-metadata e helm _

nat_eq_refl : (n : ℕ) → nat_eq n n ≡ true
nat_eq_refl n = ground arith

module _ (e : Env) (laws : ConditionLaws e.conditions) (release : ReleaseManifestSpec)
    (distinct : TypesDistinct release.components.helm) where
  abbrev Pass : UpgradePlan → UpgradePlan → Type 0
  Pass p q = ReleasePass e.conditions release p q

  unchanged-ReleasePass : (p : UpgradePlan) → Pass p p
  unchanged-ReleasePass p = ReleasePass.stopped refl refl

  -- A started generation is a restart, from any plan.
  start-ReleasePass :
      (suffix : String) (p q : UpgradePlan)
      → is_observed p ≡ false
      → Pass p (start_generation e release.components.helm suffix q)
  start-ReleasePass suffix p q unobserved =
      let helm = release.components.helm in
      let r = start_generation-Restarted e laws helm suffix q in
      ReleasePass.restarted unobserved
        (rw (r.observed, start_generation-metadata e helm suffix q) (nat_eq_refl _))
        (r.os.untrue, (r.kubernetes.untrue, chart_flags-Cleared e.conditions _ helm r.charts))

  generation-ReleasePass :
      (p : UpgradePlan)
      → is_observed p ≡ false
      → Keeps (OnPlan (Pass p)) (observe_generation e release.components.helm)
  unfolding observe_generation
  generation-ReleasePass p unobserved = Keeps-bind _ _ (suffix-OnPlan e) λ suffix.
      Keeps-bind _ _ the_plan-OnPlan λ owner. Keeps-if _ _ _ (Keeps-pure _) (
        Keeps-then _ _ (change-OnPlan _ λ q h. start-ReleasePass suffix p q unobserved)
          (Keeps-pure _))

  supported-ReleasePass :
      (nodes : List Node) (s : State e.World)
      → Pass s.plan (reconcile_supported e release nodes s).1.plan
  unfolding reconcile_supported
  supported-ReleasePass nodes s = elim (Bool-cases (is_observed s.plan)) [
    | inr unobserved ↦ rw unobserved (
        ((generation-ReleasePass s.plan unobserved).at s
          (record { holds = unchanged-ReleasePass s.plan })).holds)
    | inl observed ↦
        let a =
          stage-Advanced e laws release distinct nodes s _
            (reconcile_stage-StagePass e release nodes s) in
        rw observed (ReleasePass.advanced observed (a.observed ∙ observed) a.advance)
  ]

  -- An unsupported node changes no flag.
  blocked-ReleasePass :
      (p : UpgradePlan) (text : String)
      → Pass p (
          set_condition e.conditions condition_true unsupported_architecture_reason p
            validation_failed_condition text)
  blocked-ReleasePass p text =
      let same =
        (SameBut-ConditionFrame e.conditions laws validation_failed_condition p).kept condition_true
          unsupported_architecture_reason p text (SameBut-refl e.conditions _ p) in
      let os =
        has_true-SameBut e.conditions laws operating_system_upgraded_condition same (λ r. cc) in
      let k8s = has_true-SameBut e.conditions laws kubernetes_upgraded_condition same (λ r. cc) in
      let charts =
        chart_flags-SameBut e.conditions release.components.helm same distinct.validation_other in
      ReleasePass.stopped (rw (same.same_observed, same.same_metadata) refl) cc

-- A pass over a release works on the first of the operating system, Kubernetes and the charts that
-- is not finished, where the plan's generation is observed: those before it stay finished, and
-- those behind it as they are. Where the generation is not observed, the pass observes it and
-- leaves nothing finished; or it stops before either and leaves all as it is. The operating system
-- and Kubernetes are finished when they are upgraded, a chart when it is upgraded, skipped or
-- failed. The stages and charts have condition types of their own, and conditions work as
-- Kubernetes documents.
pub reconcile_release-ReleasePass :
    (e : Env) (laws : ConditionLaws e.conditions) (release : ReleaseManifestSpec)
    (s : State e.World)
    → TypesDistinct release.components.helm
    → ReleasePass e.conditions release s.plan (reconcile_release e release s).1.plan
reconcile_release-ReleasePass e laws release s distinct =
    reconcile_release_rule e release s (λ r. ReleasePass e.conditions release s.plan r.1.plan)
      (λ error. ReleasePass.stopped refl refl) (λ text. ReleasePass.stopped refl refl)
      (λ nodes. supported-ReleasePass e laws release distinct nodes s)
      (blocked-ReleasePass e laws release distinct s.plan)
