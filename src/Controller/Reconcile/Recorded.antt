-- ===== src/Controller/Reconcile/Recorded.antt =====
-- When a release is recorded as the last successful one.
use upgrade_controller.Prelude.{
  String, ◌≡◌, refl, ◌∙◌, true, List, [], ◌∷◌, All, Bool-cases, inl, inr, nat_eq,
}
use upgrade_controller.Errors.{Result}
use upgrade_controller.Kube.{Node}
use upgrade_controller.Api.UpgradePlan.{
  UpgradePlan, operating_system_upgraded_condition, kubernetes_upgraded_condition,
}
use upgrade_controller.Api.ReleaseManifest.{HelmChart, ReleaseManifestSpec}
use upgrade_controller.Controller.Env.{Env, ConditionOps}
use upgrade_controller.Controller.Effects.{State, CtrlResult}
use upgrade_controller.Controller.Effects.Keeps.{
  Keeps, Keeps-pure, Keeps-if, Keeps-bind, Keeps-then,
}
use upgrade_controller.Controller.Frame.{OnPlan, ConditionFrame, the_plan-OnPlan, change-OnPlan}
use upgrade_controller.Controller.Frame.Stages.{reconcile_os-OnPlan, reconcile_kubernetes-OnPlan}
use upgrade_controller.Controller.Frame.Helm.{reconcile_helm_chart-OnPlan}
use upgrade_controller.Controller.Conditions.{set_condition, set_pending_condition}
use upgrade_controller.Controller.Conditions.Laws.{has_true}
use upgrade_controller.Controller.Os.{reconcile_os}
use upgrade_controller.Controller.Kubernetes.{reconcile_kubernetes}
use upgrade_controller.Controller.Helm.{reconcile_helm_chart}
use upgrade_controller.Controller.Reconcile.{
  set_charts_pending, start_generation, observe_generation, reconcile_supported, reconcile_release,
}
use upgrade_controller.Controller.Reconcile.Release.{suffix-OnPlan, reconcile_release_rule}
use upgrade_controller.Controller.Reconcile.Stages.{
  chart_finished, StagePass, reconcile_stage-StagePass,
}

-- the plan's release that was recorded
abbrev pub last_successful : UpgradePlan → String
last_successful p = p.status.last_successful_release_version

-- What a pass does to the release that is recorded.
pub data Recording (ops : ConditionOps) (release : ReleaseManifestSpec) (before after : UpgradePlan)
    : Type 0 where
  kept : last_successful after ≡ last_successful before → Recording ops release before after
  recorded :
      nat_eq before.status.observed_generation before.metadata.generation ≡ true
      → has_true ops before operating_system_upgraded_condition ≡ true
      → has_true ops before kubernetes_upgraded_condition ≡ true
      → All (λ c. chart_finished ops before c ≡ true) release.components.helm
      → last_successful after ≡ release.release_version
      → Recording ops release before after

-- Conditions do not record a release.
last_successful-ConditionFrame :
    (ops : ConditionOps) (type version : String)
    → ConditionFrame ops type (λ p. last_successful p ≡ version)
unfolding set_condition
last_successful-ConditionFrame ops type version = record { kept = λ status reason p text h. h }

charts_pending-last_successful :
    (e : Env) (helm : List HelmChart) (p : UpgradePlan)
    → last_successful (set_charts_pending e helm p) ≡ last_successful p
unfolding set_charts_pending set_pending_condition
charts_pending-last_successful e [] p = refl
charts_pending-last_successful e (chart ∷ rest) p = charts_pending-last_successful e rest _

start_generation-last_successful :
    (e : Env) (helm : List HelmChart) (suffix : String) (p : UpgradePlan)
    → last_successful (start_generation e helm suffix p) ≡ last_successful p
unfolding start_generation set_pending_condition
start_generation-last_successful e helm suffix p = charts_pending-last_successful e helm _

module _ (e : Env) (release : ReleaseManifestSpec) where
  abbrev Records : UpgradePlan → UpgradePlan → Type 0
  Records p q = Recording e.conditions release p q

  -- A run that changes conditions of one type only.
  frame-Recording :
      {A : Type 0} (type : String) (m : State e.World → Result A × State e.World)
      (s : State e.World)
      → ((version : String)
          → ConditionFrame e.conditions type (λ p. last_successful p ≡ version)
          → Keeps (OnPlan (λ p. last_successful p ≡ version)) m)
      → Records s.plan (m s).1.plan
  frame-Recording type m s keeps = Recording.kept (
      ((keeps (last_successful s.plan)
          (last_successful-ConditionFrame e.conditions type (last_successful s.plan))).at
        s (record { holds = refl })).holds)

  stage-Recording :
      (nodes : List Node) (s : State e.World) (r : Result CtrlResult × State e.World)
      → nat_eq s.plan.status.observed_generation s.plan.metadata.generation ≡ true
      → StagePass e release nodes s r
      → Records s.plan r.1.plan
  stage-Recording nodes s _ observed (StagePass.on_os no_os) =
      frame-Recording _
        (reconcile_os e release.release_version release.components.operating_system nodes) s
        (λ v frame. reconcile_os-OnPlan e frame _ _ nodes)
  stage-Recording nodes s _ observed (StagePass.on_kubernetes os no_k8s) =
      frame-Recording _ (reconcile_kubernetes e release.components.kubernetes nodes) s
        (λ v frame. reconcile_kubernetes-OnPlan e frame _ nodes)
  stage-Recording nodes s _ observed (StagePass.on_chart next os k8s is_next) =
      frame-Recording _ (reconcile_helm_chart e next) s
        (λ v frame. reconcile_helm_chart-OnPlan e next frame)
  stage-Recording nodes s _ observed (StagePass.complete os k8s finished) =
      Recording.recorded observed os k8s finished refl

  generation-kept :
      (version : String)
      → Keeps
          (OnPlan (λ p. last_successful p ≡ version))
          (observe_generation e release.components.helm)
  unfolding observe_generation
  generation-kept version = Keeps-bind _ _ (suffix-OnPlan e) λ suffix.
      Keeps-bind _ _ the_plan-OnPlan λ owner. Keeps-if _ _ _ (Keeps-pure _) (
        Keeps-then _ _ (change-OnPlan _ λ q h. start_generation-last_successful e _ suffix q ∙ h)
          (Keeps-pure _))

  supported-Recording :
      (nodes : List Node) (s : State e.World)
      → Records s.plan (reconcile_supported e release nodes s).1.plan
  unfolding reconcile_supported
  supported-Recording nodes s =
      elim (Bool-cases (nat_eq s.plan.status.observed_generation s.plan.metadata.generation)) [
        | inr unobserved ↦ rw unobserved (
            Recording.kept
              (((generation-kept (last_successful s.plan)).at s (record { holds = refl })).holds))
        | inl observed ↦
            rw observed
              (stage-Recording nodes s _ observed (reconcile_stage-StagePass e release nodes s))
      ]

-- A pass over a release leaves the plan's last successful release version as it is, or sets it to
-- the version of the release; and this only where the plan's generation is observed, the operating
-- system and Kubernetes are upgraded, and every chart of the release is upgraded, skipped or
-- failed.
pub reconcile_release-Recording :
    (e : Env) (release : ReleaseManifestSpec) (s : State e.World)
    → Recording e.conditions release s.plan (reconcile_release e release s).1.plan
unfolding set_condition
reconcile_release-Recording e release s =
    reconcile_release_rule e release s (λ r. Recording e.conditions release s.plan r.1.plan)
      (λ error. Recording.kept refl) (λ text. Recording.kept refl)
      (λ nodes. supported-Recording e release nodes s) (λ text. Recording.kept refl)
