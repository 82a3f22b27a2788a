-- ===== src/Controller/Progression/Requeue/Passes.antt =====
-- Why a pass over a release asks to be run again at once.
use upgrade_controller.Prelude.{suc, ◌≡◌, ◌≢◌, true, false, List, Bool-cases, inl, inr}
use upgrade_controller.Errors.{Result, ok}
use upgrade_controller.Kube.{Node}
use upgrade_controller.Api.UpgradePlan.{UpgradePlan}
use upgrade_controller.Api.ReleaseManifest.{HelmChart, ReleaseManifestSpec}
use upgrade_controller.Controller.Env.{Env}
use upgrade_controller.Controller.Effects.{State, CtrlResult, requeue_if, effects}
use upgrade_controller.Controller.Conditions.Laws.{ConditionLaws}
use upgrade_controller.Controller.Reconcile.{reconcile_supported, reconcile_release}
use upgrade_controller.Controller.Reconcile.Release.{reconcile_release_rule}
use upgrade_controller.Controller.Reconcile.Stages.{IsNext, StagePass, reconcile_stage-StagePass}
use upgrade_controller.Controller.Progression.{todo, Advance-todo}
use upgrade_controller.Controller.Progression.Flags.{stage_flags, TypesDistinct}
use upgrade_controller.Controller.Progression.Refinement.{
  is_observed, Advanced, stage-Advanced, chart-differs, heads-differ, tails,
}
use upgrade_controller.Controller.Progression.Requeue.Stages.{
  reconcile_os-Requeues, reconcile_kubernetes-Requeues,
}
use upgrade_controller.Controller.Progression.Requeue.Busy.{AddonInProgress}
use upgrade_controller.Controller.Progression.Requeue.Helm.{reconcile_helm_chart-Asks}

-- What a pass has done that asks for the next one at once.
pub data Progressed (e : Env) (release : ReleaseManifestSpec) (s : State e.World)
    (after : UpgradePlan) : Type 0 where
  -- one stage or chart more is finished
  one_more :
      todo (stage_flags e.conditions release.components.helm s.plan)
        ≡ suc (todo (stage_flags e.conditions release.components.helm after))
      → Progressed e release s after
  -- the pass found an add-on of the chart that comes next being upgraded
  addon_busy :
      (chart : HelmChart)
      → IsNext e.conditions s.plan chart release.components.helm
      → AddonInProgress e chart s after
      → Progressed e release s after
  -- the generation was new
  new_generation : is_observed s.plan ≡ false → Progressed e release s after

module _ (e : Env) (laws : ConditionLaws e.conditions) (release : ReleaseManifestSpec)
    (distinct : TypesDistinct release.components.helm) where
  changed-Progressed :
      (s : State e.World) (q : UpgradePlan)
      → Advanced e laws release distinct s.plan q
      → stage_flags e.conditions release.components.helm s.plan
        ≢ stage_flags e.conditions release.components.helm q
      → Progressed e release s q
  changed-Progressed s q a differ = one_more (Advance-todo _ _ a.advance differ)

  stage-Progressed :
      (nodes : List Node) (s : State e.World) (r : Result CtrlResult × State e.World)
      → StagePass e release nodes s r
      → Advanced e laws release distinct s.plan r.1.plan
      → r.0 ≡ ok (requeue_if true)
      → Progressed e release s r.1.plan
  stage-Progressed nodes s _ (StagePass.on_os no_os) a asked =
      changed-Progressed _ _ a
        (heads-differ no_os ((reconcile_os-Requeues e laws _ _ nodes).at s asked))
  stage-Progressed nodes s _ (StagePass.on_kubernetes os no_k8s) a asked =
      let differ =
        heads-differ no_k8s ((reconcile_kubernetes-Requeues e laws _ nodes).at s asked) in
      changed-Progressed _ _ a (λ same. differ (tails same))
  stage-Progressed nodes s _ (StagePass.on_chart next os k8s is_next) a asked =
      elim (reconcile_helm_chart-Asks e laws next s asked) [
        | inr busy ↦ addon_busy next is_next busy
        | inl finished ↦
            changed-Progressed _ _ a λ same.
              chart-differs e.conditions s.plan _ next _ is_next finished (tails (tails same))
      ]
  stage-Progressed nodes s _ (StagePass.complete os k8s finished) a asked =
      let f : false ≡ true = cc in cc

  supported-Progressed :
      (nodes : List Node) (s : State e.World)
      → (reconcile_supported e release nodes s).0 ≡ ok (requeue_if true)
      → Progressed e release s (reconcile_supported e release nodes s).1.plan
  unfolding reconcile_supported
  supported-Progressed nodes s asked = elim (Bool-cases (is_observed s.plan)) [
    | inr unobserved ↦ new_generation unobserved
    | inl observed ↦
        let staged = reconcile_stage-StagePass e release nodes s in
        rw observed (
          stage-Progressed nodes s _ staged
            (stage-Advanced e laws release distinct nodes s _ staged) (rw observed at asked))
  ]

-- A pass that asks to be run again at once has come nearer to the end: one fewer of the stages that
-- are not upgraded and the charts that are not finished (upgraded, skipped or failed) is left. The
-- exceptions are a generation that was not observed, and a pass that found the next chart and its
-- dependencies done and then one of the chart's add-ons in progress. The stages and charts have
-- condition types of their own, and conditions work as Kubernetes documents.
pub reconcile_release-Progressed :
    (e : Env) (laws : ConditionLaws e.conditions) (release : ReleaseManifestSpec)
    (distinct : TypesDistinct release.components.helm) (s : State e.World)
    → (reconcile_release e release s).0 ≡ ok (requeue_if true)
    → Progressed e release s (reconcile_release e release s).1.plan
unfolding effects
reconcile_release-Progressed e laws release distinct s =
    reconcile_release_rule e release s
      (λ r. r.0 ≡ ok (requeue_if true) → Progressed e release s r.1.plan) (λ error asked. cc)
      (λ text asked. cc) (λ nodes. supported-Progressed e laws release distinct nodes s)
      (λ text asked. let f : false ≡ true = cc in cc)
