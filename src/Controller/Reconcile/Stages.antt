-- ===== src/Controller/Reconcile/Stages.antt =====
-- The order of the stages: the operating system, Kubernetes, then the charts of the release.
use upgrade_controller.Prelude.{
  String, ◌≡◌, refl, Bool, true, false, List, [], ◌∷◌, All, Option, none, some, Bool-cases, inl,
  inr,
}
use upgrade_controller.Errors.{Result, ok}
use upgrade_controller.Kube.{Node}
use upgrade_controller.Api.UpgradePlan.{
  UpgradePlan, operating_system_upgraded_condition, kubernetes_upgraded_condition,
  get_chart_condition_type,
}
use upgrade_controller.Api.ReleaseManifest.{HelmChart, ReleaseManifestSpec, fields}
use upgrade_controller.Controller.Env.{Env, ConditionOps}
use upgrade_controller.Controller.Effects.{State, CtrlResult, no_requeue, effects}
use upgrade_controller.Controller.Conditions.{is_helm_upgrade_finished}
use upgrade_controller.Controller.Conditions.Laws.{has_true}
use upgrade_controller.Controller.Os.{reconcile_os}
use upgrade_controller.Controller.Kubernetes.{reconcile_kubernetes}
use upgrade_controller.Controller.Helm.{reconcile_helm_chart}
use upgrade_controller.Controller.Reconcile.{next_chart, reconcile_chart, reconcile_stage}

abbrev pub chart_finished : ConditionOps → UpgradePlan → HelmChart → Bool
chart_finished ops p chart =
    is_helm_upgrade_finished ops p (get_chart_condition_type (fields chart).pretty_name)

-- The chart is in the list, and those before it are finished while it is not.
pub data IsNext (ops : ConditionOps) (p : UpgradePlan) (chart : HelmChart)
    : List HelmChart → Type 0 where
  here :
      {rest : List HelmChart}
      → chart_finished ops p chart ≡ false
      → IsNext ops p chart (chart ∷ rest)
  later :
      {first : HelmChart} {rest : List HelmChart}
      → chart_finished ops p first ≡ true
      → IsNext ops p chart rest
      → IsNext ops p chart (first ∷ rest)

abbrev pub set_last_successful : String → UpgradePlan → UpgradePlan
set_last_successful version p = record p {
  status = record (p.status) { last_successful_release_version = version };
}

module _ (e : Env) (release : ReleaseManifestSpec) (nodes : List Node) (s : State e.World) where
  -- What the pass is, by the first stage or chart that is not finished.
  pub data StagePass : Result CtrlResult × State e.World → Type 0 where
    on_os :
        has_true e.conditions s.plan operating_system_upgraded_condition ≡ false
        → StagePass
            (reconcile_os e release.release_version release.components.operating_system nodes s)
    on_kubernetes :
        has_true e.conditions s.plan operating_system_upgraded_condition ≡ true
        → has_true e.conditions s.plan kubernetes_upgraded_condition ≡ false
        → StagePass (reconcile_kubernetes e release.components.kubernetes nodes s)
    on_chart :
        (next : HelmChart)
        → has_true e.conditions s.plan operating_system_upgraded_condition ≡ true
        → has_true e.conditions s.plan kubernetes_upgraded_condition ≡ true
        → IsNext e.conditions s.plan next release.components.helm
        → StagePass (reconcile_helm_chart e next s)
    complete :
        has_true e.conditions s.plan operating_system_upgraded_condition ≡ true
        → has_true e.conditions s.plan kubernetes_upgraded_condition ≡ true
        → All (λ c. chart_finished e.conditions s.plan c ≡ true) release.components.helm
        → StagePass
            (ok no_requeue, record s { plan = set_last_successful release.release_version s.plan })

module _ (e : Env) (p : UpgradePlan) where
  all_finished :
      (helm : List HelmChart)
      → next_chart e helm p ≡ none
      → All (λ c. chart_finished e.conditions p c ≡ true) helm
  unfolding next_chart
  all_finished [] h = tt
  all_finished (c ∷ rest) h = elim (Bool-cases (chart_finished e.conditions p c)) [
    | inl done ↦ (done, all_finished rest (rw done at h))
    | inr open_chart ↦ let h' : some c ≡ none = rw open_chart at h in cc
  ]

  next_chart-IsNext :
      (helm : List HelmChart) (next : HelmChart)
      → next_chart e helm p ≡ some next
      → IsNext e.conditions p next helm
  unfolding next_chart
  next_chart-IsNext [] next h = cc
  next_chart-IsNext (c ∷ rest) next h = elim (Bool-cases (chart_finished e.conditions p c)) [
    | inl done ↦ IsNext.later done (next_chart-IsNext rest next (rw done at h))
    | inr open_chart ↦
        let h' : some c ≡ some next = rw open_chart at h in
        let same : c ≡ next = cc in rw (← same) (IsNext.here open_chart)
  ]

-- A pass over an observed generation works on the first of the operating system, Kubernetes and the
-- release's charts, in their order, that is not finished yet; where all are, it records the release
-- as the last successful one and changes nothing else. A chart is finished when it is upgraded,
-- skipped or failed.
pub reconcile_stage-StagePass :
    (e : Env) (release : ReleaseManifestSpec) (nodes : List Node) (s : State e.World)
    → StagePass e release nodes s (reconcile_stage e release nodes s)
unfolding effects reconcile_stage
reconcile_stage-StagePass e release nodes s =
    elim (Bool-cases (has_true e.conditions s.plan operating_system_upgraded_condition)) [
      | inr no_os ↦ rw no_os (StagePass.on_os no_os)
      | inl os ↦ elim (Bool-cases (has_true e.conditions s.plan kubernetes_upgraded_condition)) [
        | inr no_k8s ↦ rw (os, no_k8s) (StagePass.on_kubernetes os no_k8s)
        | inl k8s ↦ rw (os, k8s) (go (next_chart e release.components.helm s.plan) refl os k8s)
      ]
    ]
  where
    go :
        (next : Option HelmChart)
        → next_chart e release.components.helm s.plan ≡ next
        → has_true e.conditions s.plan operating_system_upgraded_condition ≡ true
        → has_true e.conditions s.plan kubernetes_upgraded_condition ≡ true
        → StagePass e release nodes s (reconcile_chart e release.release_version next s)
    go none q os k8s = StagePass.complete os k8s (all_finished e s.plan _ q)
    go (some chart) q os k8s =
        StagePass.on_chart chart os k8s (next_chart-IsNext e s.plan _ chart q)
