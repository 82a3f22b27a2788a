-- ===== src/Controller/Charts/Repeat.antt =====
-- A pass over a chart's resource that an earlier pass wrote.
use upgrade_controller.Prelude.{
  String, ◌≡◌, refl, sym, ◌∙◌, true, ◌==◌, lookup, lookup-insert, eq_iff,
}
use upgrade_controller.Kube.{HelmChartResource}
use upgrade_controller.Api.UpgradePlan.{UpgradePlan}
use upgrade_controller.Api.ReleaseManifest.{ChartFields}
use upgrade_controller.Upgrade.Base.{release_annotation}
use upgrade_controller.Controller.Env.{Env, HelmRelease}
use upgrade_controller.Controller.Effects.{State}
use upgrade_controller.Controller.Effects.Rules.{bind_the_plan}
use upgrade_controller.Controller.Charts.{
  updated_chart_resource, new_chart_resource, job_key, state_of_job, upgrade_existing_chart,
}
use upgrade_controller.Controller.Charts.Outcome.{annotated_release}

same_text : {a b : String} → a ≡ b → (a == b) ≡ true
same_text {a} {b} h = (eq_iff a b).1 h

-- A resource of the wanted version, changed for this release, is left alone.
left_alone :
    (e : Env) (wanted : ChartFields) (chart : HelmChartResource) (s : State e.World)
    → chart.spec.version ≡ wanted.version
    → annotated_release chart ≡ s.plan.spec.release_version
    → upgrade_existing_chart e wanted chart s
      ≡ (state_of_job (e.get_job (job_key chart) s.world), s)
unfolding upgrade_existing_chart
left_alone e wanted chart s version release =
    rw (bind_the_plan, same_text version, same_text release) refl

updated_annotation :
    (owner : UpgradePlan) (chart : HelmChartResource) (wanted : ChartFields) (merged : String)
    → annotated_release (updated_chart_resource owner chart wanted merged)
      ≡ owner.spec.release_version
unfolding updated_chart_resource
updated_annotation owner chart wanted merged =
    rw
      (lookup-insert release_annotation release_annotation owner.spec.release_version
        chart.metadata.annotations)
      refl

-- Once the controller has created or updated the resource of a chart, later passes for the same
-- release of the plan, with the same wanted version, change nothing and return the state of the
-- resource's job, whatever values were merged.
pub written_chart_left_alone :
    (e : Env) (wanted : ChartFields) (owner : UpgradePlan) (chart : HelmChartResource)
    (installed : HelmRelease) (merged : String) (s : State e.World)
    → s.plan.spec.release_version ≡ owner.spec.release_version
    → (upgrade_existing_chart e wanted (updated_chart_resource owner chart wanted merged) s ≡ (
      state_of_job (e.get_job (job_key (updated_chart_resource owner chart wanted merged)) s.world),
      s,
    ))
      × (upgrade_existing_chart e wanted (new_chart_resource owner installed wanted merged) s ≡ (
        state_of_job
            (e.get_job (job_key (new_chart_resource owner installed wanted merged)) s.world),
        s,
      ))
unfolding new_chart_resource updated_chart_resource lookup
written_chart_left_alone e wanted owner chart installed merged s same = (
  left_alone e wanted _ s refl (updated_annotation owner chart wanted merged ∙ sym same),
  left_alone e wanted _ s refl (sym same),
)
