-- ===== src/Controller/Routing/Jobs.antt =====
-- From a finished job of the Helm Controller back to the upgrade plan.
use upgrade_controller.Prelude.{String, ◌≡◌, ◌≢◌, [], ◌∷◌, Dict, lookup, none, some, arith, eq_iff}
use upgrade_controller.Errors.{ok}
use upgrade_controller.Kube.{HelmChartResource}
use upgrade_controller.Api.UpgradePlan.{UpgradePlan}
use upgrade_controller.Api.ReleaseManifest.{ChartFields}
use upgrade_controller.Upgrade.Base.{plan_name_label}
use upgrade_controller.Upgrade.Helm.{chart_namespaced_name}
use upgrade_controller.Controller.Env.{Env, HelmRelease}
use upgrade_controller.Controller.Charts.{updated_chart_resource, new_chart_resource}
use upgrade_controller.Controller.Watches.{find_upgrade_plan_from_label, find_upgrade_plan_from_job}
use upgrade_controller.Controller.Routing.{LeadsTo, request_of}
use upgrade_controller.Controller.Routing.Labels.{new_chart-Placed, updated_chart-LeadsTo}

-- The resource is as the controller left it, created for a release or changed.
pub data WrittenFor (owner : UpgradePlan) : HelmChartResource → Type 0 where
  created_chart :
      (installed : HelmRelease) (wanted : ChartFields) (merged : String)
      → WrittenFor owner (new_chart_resource owner installed wanted merged)
  updated_chart :
      (existing : HelmChartResource) (wanted : ChartFields) (merged : String)
      → WrittenFor owner (updated_chart_resource owner existing wanted merged)

WrittenFor-LeadsTo :
    (owner : UpgradePlan) (chart : HelmChartResource)
    → owner.metadata.name ≢ ""
    → WrittenFor owner chart
    → LeadsTo owner.metadata chart.metadata.labels
WrittenFor-LeadsTo owner _ named (created_chart installed wanted merged) =
    (new_chart-Placed owner named installed wanted merged).leads
WrittenFor-LeadsTo owner _ named (updated_chart existing wanted merged) =
    updated_chart-LeadsTo owner named existing wanted merged

-- A job of the Helm Controller, which has the chart's label and none of the plan's, leads to exactly
-- the plan for which the controller created or changed the chart's resource, so that its end makes
-- the plan be reconciled. The plan and the chart have names.
pub find_upgrade_plan_from_job-WrittenFor :
    (e : Env) (owner : UpgradePlan) (labels : Dict String) (chart_name : String) (w : e.World)
    (chart : HelmChartResource)
    → owner.metadata.name ≢ ""
    → lookup plan_name_label labels ≡ none
    → lookup e.chart_label labels ≡ some chart_name
    → chart_name ≢ ""
    → e.get_helm_chart (chart_namespaced_name chart_name) w ≡ ok chart
    → WrittenFor owner chart
    → find_upgrade_plan_from_job e labels w ≡ request_of owner.metadata ∷ []
unfolding find_upgrade_plan_from_job find_upgrade_plan_from_label
find_upgrade_plan_from_job-WrittenFor e owner labels chart_name w chart named no_plan labelled
      chart_named found written =
    let leads = WrittenFor-LeadsTo owner chart named written in
    let none_here : find_upgrade_plan_from_label labels ≡ [] = ground arith in
    ground (arith, eq_iff chart_name "")
