-- ===== src/Controller/Frame/Charts.antt =====
-- The upgrade of one chart leaves the upgrade plan as it is.
use upgrade_controller.Errors.{Result, ok, err, panic}
use upgrade_controller.Kube.{HelmChartResource}
use upgrade_controller.Api.UpgradePlan.{UpgradePlan}
use upgrade_controller.Api.ReleaseManifest.{ChartFields}
use upgrade_controller.Controller.Env.{Env, HelmRelease}
use upgrade_controller.Controller.Releases.{retrieve_helm_release}
use upgrade_controller.Controller.Effects.Keeps.{
  Keeps, Keeps-pure, Keeps-lift, Keeps-raise, Keeps-if, Keeps-bind, Keeps-then, Keeps-if_found,
}
use upgrade_controller.Controller.Charts.{
  job_key, state_of_job, update_helm_chart, create_helm_chart, upgrade_existing_chart,
  upgrade_missing_chart, upgrade_release, upgrade_helm_chart,
}
use upgrade_controller.Controller.Frame.{OnPlan, act-OnPlan, the_plan-OnPlan, create-OnPlan}

module _ (e : Env) {P : UpgradePlan → Type 0} where
  update_chart-OnPlan :
      (chart : HelmChartResource) (wanted : ChartFields)
      → Keeps (OnPlan P) (update_helm_chart e chart wanted)
  unfolding update_helm_chart
  update_chart-OnPlan chart wanted =
      Keeps-bind _ _ the_plan-OnPlan
        λ owner. Keeps-bind _ _ (Keeps-lift _) (λ merged. act-OnPlan _ _)

  create_chart-OnPlan :
      (release : HelmRelease) (wanted : ChartFields)
      → Keeps (OnPlan P) (create_helm_chart e release wanted)
  unfolding create_helm_chart
  create_chart-OnPlan release wanted =
      Keeps-bind _ _ the_plan-OnPlan
        λ owner. Keeps-bind _ _ (Keeps-lift _) (λ merged. create-OnPlan e _)

  job-OnPlan :
      (chart : HelmChartResource)
      → Keeps (OnPlan P) (λ s. (state_of_job (e.get_job (job_key chart) s.world), s))
  job-OnPlan chart = record { at = λ s h. h }

  existing-OnPlan :
      (wanted : ChartFields) (chart : HelmChartResource)
      → Keeps (OnPlan P) (upgrade_existing_chart e wanted chart)
  unfolding upgrade_existing_chart
  existing-OnPlan wanted chart = Keeps-bind _ _ the_plan-OnPlan λ owner.
      Keeps-if _ _ _ (Keeps-if _ _ _ (job-OnPlan chart) (Keeps-pure _))
        (Keeps-then _ _ (update_chart-OnPlan chart wanted) (Keeps-pure _))

  missing-OnPlan :
      (wanted : ChartFields) (release : HelmRelease)
      → Keeps (OnPlan P) (upgrade_missing_chart e wanted release)
  unfolding upgrade_missing_chart
  missing-OnPlan wanted release =
      Keeps-if _ _ _ (Keeps-pure _)
        (Keeps-then _ _ (create_chart-OnPlan release wanted) (Keeps-pure _))

  release-OnPlan :
      (wanted : ChartFields) (r : Result HelmRelease)
      → Keeps (OnPlan P) (upgrade_release e wanted r)
  unfolding upgrade_release
  release-OnPlan wanted (ok release) =
      Keeps-if_found _ _ _ (missing-OnPlan wanted release) (existing-OnPlan wanted)
  release-OnPlan wanted (err error) = Keeps-if _ _ _ (Keeps-pure _) (Keeps-raise _)
  release-OnPlan wanted (panic text) = Keeps-lift _

  pub upgrade-OnPlan : (wanted : ChartFields) → Keeps (OnPlan P) (upgrade_helm_chart e wanted)
  unfolding upgrade_helm_chart
  upgrade-OnPlan wanted = record {
    at =
        λ s h. (release-OnPlan wanted (retrieve_helm_release e s.world wanted.release_name)).at s h;
  }
