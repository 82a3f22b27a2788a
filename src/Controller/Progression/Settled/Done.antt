-- ===== src/Controller/Progression/Settled/Done.antt =====
-- Clusters in which a chart is done, with its dependencies and add-ons.
use upgrade_controller.Prelude.{String, ◌≡◌, true, false, All, ◌==◌, or_empty, lookup}
use upgrade_controller.Errors.{ok, err, Error, is_not_found}
use upgrade_controller.Kube.{HelmChartResource, Job}
use upgrade_controller.Api.ReleaseManifest.{
  HelmChart, ChartFields, fields, dependency_charts, addon_charts,
}
use upgrade_controller.Upgrade.Base.{release_annotation}
use upgrade_controller.Upgrade.Helm.{succeeded, chart_namespaced_name}
use upgrade_controller.Controller.Env.{Env, HelmRelease}
use upgrade_controller.Controller.Releases.{retrieve_helm_release}
use upgrade_controller.Controller.Charts.{job_key, job_state}

module _ (e : Env) (w : e.World) (version : String) where
  -- How the upgrade of a chart to its wanted version stands in the cluster, where it is over.
  pub data ResourceDone (wanted : ChartFields) (release : HelmRelease) : Type 0 where
    -- it was installed by other means, at the wanted version
    installed :
        (error : Error)
        → e.get_helm_chart (chart_namespaced_name release.name) w ≡ err error
        → is_not_found error ≡ true
        → (release.chart_version == wanted.version) ≡ true
        → ResourceDone wanted release
    -- the resource has the wanted version since another release of the plan
    unchanged :
        (chart : HelmChartResource)
        → e.get_helm_chart (chart_namespaced_name release.name) w ≡ ok chart
        → (chart.spec.version == wanted.version) ≡ true
        → (or_empty (lookup release_annotation chart.metadata.annotations) == version) ≡ false
        → ResourceDone wanted release
    -- the job of the resource is complete
    completed :
        (chart : HelmChartResource) (job : Job)
        → e.get_helm_chart (chart_namespaced_name release.name) w ≡ ok chart
        → (chart.spec.version == wanted.version) ≡ true
        → (or_empty (lookup release_annotation chart.metadata.annotations) == version) ≡ true
        → e.get_job (job_key chart) w ≡ ok job
        → job_state job ≡ succeeded
        → ResourceDone wanted release

  pub record FieldsDone (wanted : ChartFields) : Type 0 where
    pub release : HelmRelease
    pub installed_release : retrieve_helm_release e w wanted.release_name ≡ ok release
    pub resource : ResourceDone wanted release

  pub record ChartDone (chart : HelmChart) : Type 0 where
    pub dependencies : All (λ c. FieldsDone (fields c)) (dependency_charts chart)
    pub core : FieldsDone (fields chart)
    pub addons : All (λ c. FieldsDone (fields c)) (addon_charts chart)
