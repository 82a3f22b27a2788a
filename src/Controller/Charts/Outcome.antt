-- ===== src/Controller/Charts/Outcome.antt =====
-- What `upgradeHelmChart` found and did where it returns a state.
use upgrade_controller.Prelude.{
  String, ◌≡◌, ◌≢◌, refl, true, List, ◌∷◌, ◌==◌, lookup, or_empty, neq_of_test, Bool-cases, inl,
  inr, eq_iff,
}
use upgrade_controller.Errors.{Result, ok, err, panic, Error, is_not_found, is_release_not_found}
use upgrade_controller.Kube.{HelmChartResource, helm_chart}
use upgrade_controller.Api.ReleaseManifest.{ChartFields}
use upgrade_controller.Upgrade.Base.{release_annotation}
use upgrade_controller.Upgrade.Helm.{
  HelmChartState, not_installed, version_already_installed, in_progress, chart_namespaced_name,
}
use upgrade_controller.Controller.Values.{text, values, merge_helm_values}
use upgrade_controller.Controller.Env.{Env, HelmRelease}
use upgrade_controller.Controller.Releases.{retrieve_helm_release}
use upgrade_controller.Controller.Effects.{Call, created, updated_chart, State, effects, pure}
use upgrade_controller.Controller.Effects.Changes.{changes}
use upgrade_controller.Controller.Effects.Rules.{
  if_found_rule, bind_succeeded, bind_the_plan, pure_lem, raise_lem, lift_lem,
}
use upgrade_controller.Controller.Charts.Written.{update_changes, create_changes}
use upgrade_controller.Controller.Charts.{
  find_user_values, updated_chart_resource, new_chart_resource, job_key, state_of_job,
  update_helm_chart, create_helm_chart, upgrade_existing_chart, upgrade_missing_chart,
  upgrade_release, upgrade_helm_chart,
}

-- the release that the resource says it was last changed for
abbrev pub annotated_release : HelmChartResource → String
annotated_release chart = or_empty (lookup release_annotation chart.metadata.annotations)

returned_state : {W A : Type 0} (a : A) (s : State W) {b : A} → (pure a s).0 ≡ ok b → a ≡ b
unfolding effects
returned_state a s h = cc

module _ (e : Env) (wanted : ChartFields) (s : State e.World) where
  -- The state, and the calls behind it but for events. `owner` is the upgrade plan.
  pub data Outcome : HelmChartState → List Call → Type 0 where
    -- Helm knows no release of the chart's name.
    absent :
        (error : Error)
        → retrieve_helm_release e s.world wanted.release_name ≡ err error
        → is_release_not_found error ≡ true
        → Outcome not_installed (changes s.trace)
    -- There is no resource, and the release that is installed has the version.
    current :
        (release : HelmRelease) (error : Error)
        → retrieve_helm_release e s.world wanted.release_name ≡ ok release
        → e.get_helm_chart (chart_namespaced_name release.name) s.world ≡ err error
        → is_not_found error ≡ true
        → release.chart_version ≡ wanted.version
        → Outcome version_already_installed (changes s.trace)
    -- There is no resource, and another version is installed: one is created.
    creates :
        (release : HelmRelease) (error : Error) (merged : String)
        → retrieve_helm_release e s.world wanted.release_name ≡ ok release
        → e.get_helm_chart (chart_namespaced_name release.name) s.world ≡ err error
        → is_not_found error ≡ true
        → release.chart_version ≢ wanted.version
        → merge_helm_values e.codec
            (values release.config)
            wanted.values
            (find_user_values wanted.name s.plan.spec.helm)
          ≡ ok merged
        → Outcome in_progress (
            created (helm_chart (new_chart_resource s.plan release wanted merged))
            ∷ changes s.trace)
    -- The resource has another version: it is updated.
    updates :
        (release : HelmRelease) (chart : HelmChartResource) (merged : String)
        → retrieve_helm_release e s.world wanted.release_name ≡ ok release
        → e.get_helm_chart (chart_namespaced_name release.name) s.world ≡ ok chart
        → chart.spec.version ≢ wanted.version
        → merge_helm_values e.codec
            (text chart.spec.values_content)
            wanted.values
            (find_user_values wanted.name s.plan.spec.helm)
          ≡ ok merged
        → Outcome in_progress
            (updated_chart (updated_chart_resource s.plan chart wanted merged) ∷ changes s.trace)
    -- The resource has the version from before this release.
    kept :
        (release : HelmRelease) (chart : HelmChartResource)
        → retrieve_helm_release e s.world wanted.release_name ≡ ok release
        → e.get_helm_chart (chart_namespaced_name release.name) s.world ≡ ok chart
        → chart.spec.version ≡ wanted.version
        → annotated_release chart ≢ s.plan.spec.release_version
        → Outcome version_already_installed (changes s.trace)
    -- The resource was changed for this release: its job decides.
    by_job :
        (release : HelmRelease) (chart : HelmChartResource) (state : HelmChartState)
        → retrieve_helm_release e s.world wanted.release_name ≡ ok release
        → e.get_helm_chart (chart_namespaced_name release.name) s.world ≡ ok chart
        → chart.spec.version ≡ wanted.version
        → annotated_release chart ≡ s.plan.spec.release_version
        → state_of_job (e.get_job (job_key chart) s.world) ≡ ok state
        → Outcome state (changes s.trace)

  abbrev HasOutcome : Result HelmChartState × State e.World → Type 0
  HasOutcome r = (state : HelmChartState) → r.0 ≡ ok state → Outcome state (changes r.1.trace)

  returns :
      (state : HelmChartState) (after : State e.World)
      → Outcome state (changes after.trace)
      → HasOutcome (ok state, after)
  returns state after o found q = let same : state ≡ found = cc in rw (← same) o

  existing_outcome :
      (release : HelmRelease) (chart : HelmChartResource)
      → retrieve_helm_release e s.world wanted.release_name ≡ ok release
      → e.get_helm_chart (chart_namespaced_name release.name) s.world ≡ ok chart
      → HasOutcome (upgrade_existing_chart e wanted chart s)
  unfolding upgrade_existing_chart
  existing_outcome release chart installed found =
      elim (Bool-cases (chart.spec.version == wanted.version)) [
        | inl same ↦
            let version = (eq_iff chart.spec.version wanted.version).0 same in
            elim (Bool-cases (annotated_release chart == s.plan.spec.release_version)) [
              | inl ours ↦
                  rw (bind_the_plan, same, ours)
                    (λ state q.
                      Outcome.by_job release chart state installed found version
                        ((eq_iff _ s.plan.spec.release_version).0 ours) q)
              | inr older ↦
                  rw (bind_the_plan, same, older, pure_lem)
                    (returns version_already_installed s
                      (Outcome.kept release chart installed found version (neq_of_test _ _ older)))
            ]
        | inr other ↦
            rw (bind_the_plan, other)
              (λ state q.
                let (u, after, ran, last, same) =
                  bind_succeeded (update_helm_chart e chart wanted) _ s q in
                let (merged, made, changed) = update_changes e wanted s chart ran in
                rw (same, pure_lem, changed)
                  (rw (← returned_state in_progress after last) (
                    Outcome.updates release chart merged installed found (neq_of_test _ _ other)
                      made)))
      ]

  missing_outcome :
      (release : HelmRelease) (error : Error)
      → retrieve_helm_release e s.world wanted.release_name ≡ ok release
      → e.get_helm_chart (chart_namespaced_name release.name) s.world ≡ err error
      → is_not_found error ≡ true
      → HasOutcome (upgrade_missing_chart e wanted release s)
  unfolding upgrade_missing_chart
  missing_outcome release error found failed missing =
      elim (Bool-cases (release.chart_version == wanted.version)) [
        | inl same ↦
            rw (same, pure_lem)
              (returns version_already_installed s (
                Outcome.current release error found failed missing
                  ((eq_iff release.chart_version wanted.version).0 same)))
        | inr other ↦ rw other (λ state q.
            let (u, after, ran, last, same) =
              bind_succeeded (create_helm_chart e release wanted) _ s q in
            let (merged, made, changed) = create_changes e wanted s release ran in
            rw (same, pure_lem, changed)
              (rw (← returned_state in_progress after last) (
                Outcome.creates release error merged found failed missing (neq_of_test _ _ other)
                  made)))
      ]

  release_outcome :
      (r : Result HelmRelease)
      → retrieve_helm_release e s.world wanted.release_name ≡ r
      → HasOutcome (upgrade_release e wanted r s)
  unfolding upgrade_release
  release_outcome (ok release) found =
      if_found_rule HasOutcome (e.get_helm_chart (chart_namespaced_name release.name))
        (upgrade_missing_chart e wanted release) (upgrade_existing_chart e wanted) s
        (λ error q missing. missing_outcome release error found q missing)
        (λ chart q. existing_outcome release chart found q) (λ error state q. cc) (λ p state q. cc)
  release_outcome (err error) found = elim (Bool-cases (is_release_not_found error)) [
    | inl missing ↦
        rw (missing, pure_lem) (returns not_installed s (Outcome.absent error found missing))
    | inr other ↦ rw (other, raise_lem) (λ state q. cc)
  ]
  release_outcome (panic p) found = rw lift_lem (λ state q. cc)

-- Where `upgradeHelmChart` returns a state, the state and what was created or updated are as the
-- installed release, the chart's resource and its job in the cluster demand: a resource is created
-- or updated exactly where another version than the wanted one is found, at most one call is made,
-- and the state of a job counts only for a resource of the wanted version that was changed for this
-- release of the plan.
pub upgrade_helm_chart-Outcome :
    (e : Env) (wanted : ChartFields) (s : State e.World) (state : HelmChartState)
    → (upgrade_helm_chart e wanted s).0 ≡ ok state
    → Outcome e wanted s state (changes (upgrade_helm_chart e wanted s).1.trace)
unfolding upgrade_helm_chart
upgrade_helm_chart-Outcome e wanted s =
    release_outcome e wanted s (retrieve_helm_release e s.world wanted.release_name) refl
