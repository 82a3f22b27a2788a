-- ===== src/Controller/Charts.antt =====
-- helm.go: the HelmChart resource that carries out a chart's upgrade, and the upgrade's state.
pub mod Outcome
pub mod Repeat
pub mod Written
use upgrade_controller.Prelude.{
  String, Bool, false, ◌||◌, Option, none, some, List, [], ◌∷◌, ◌==◌, lookup, insert, or_empty,
  find_func, if◌then◌else◌,
}
use upgrade_controller.Errors.{
  Result, ok, err, panic, in_context, is_not_found, is_release_not_found, wrap,
}
use upgrade_controller.Kube.{
  HelmChartResource, Job, StatusCondition, is_true, helm_chart, NamespacedName, object_meta,
}
use upgrade_controller.Api.UpgradePlan.{UpgradePlan, HelmValues}
use upgrade_controller.Api.ReleaseManifest.{ChartFields}
use upgrade_controller.Upgrade.Base.{
  plan_name_label, plan_namespace_label, release_annotation, kube_system_namespace,
  plan_identifier_labels,
}
use upgrade_controller.Upgrade.Helm.{
  HelmChartState, unknown, not_installed, version_already_installed, in_progress, failed, succeeded,
  chart_namespaced_name,
}
use upgrade_controller.Controller.Values.{text, values, merge_helm_values}
use upgrade_controller.Controller.Env.{Env, HelmRelease}
use upgrade_controller.Controller.Releases.{retrieve_helm_release}
use upgrade_controller.Controller.Effects.{
  Eff, updated_chart, pure, lift, raise, if_found, act, the_plan, create_object, ◌>>=◌, ◌>>◌,
}

-- the user's values of the first entry for the chart
unfoldable pub find_user_values : String → List HelmValues → Option String
find_user_values chart [] = none
find_user_values chart (h ∷ rest) =
    let later = find_user_values chart rest in if chart == h.chart then h.values else later

-- the fields that `updateHelmChart` sets, with the merged values
unfoldable pub updated_chart_resource :
    UpgradePlan → HelmChartResource → ChartFields → String → HelmChartResource
updated_chart_resource owner chart release_chart merged = record chart {
  metadata = record (chart.metadata) {
    labels =
        insert plan_namespace_label owner.metadata.namespace
          (insert plan_name_label owner.metadata.name chart.metadata.labels);
    annotations = insert release_annotation owner.spec.release_version chart.metadata.annotations;
  };
  spec = record (chart.spec) {
    chart_content = "";
    chart = release_chart.name;
    version = release_chart.version;
    repo = release_chart.repository;
    values_content = merged;
    back_off_limit = some 6;
  };
}

-- the resource that `createHelmChart` builds
unfoldable pub new_chart_resource :
    UpgradePlan → HelmRelease → ChartFields → String → HelmChartResource
new_chart_resource owner installed release_chart merged =
    let meta =
      object_meta installed.name kube_system_namespace
        (plan_identifier_labels owner.metadata.name owner.metadata.namespace) in
    record {
      type_meta = record { kind = "HelmChart"; api_version = "helm.cattle.io/v1" };
      metadata = record meta {
        annotations = (release_annotation, owner.spec.release_version) ∷ [];
      };
      spec = record {
        target_namespace = installed.namespace;
        chart = release_chart.name;
        chart_content = "";
        version = release_chart.version;
        repo = release_chart.repository;
        values_content = merged;
        back_off_limit = some 6;
      };
      job_name = "";
    }

-- `condition.Status == ConditionTrue && (JobComplete || JobFailed)`
abbrev pub is_finish : StatusCondition → Bool
is_finish c = if is_true c.status then c.type == "Complete" || c.type == "Failed" else false

-- the state that the first finishing condition gives
unfoldable pub job_state : Job → HelmChartState
job_state job = elim (find_func is_finish job.conditions) [
  | none ↦ in_progress
  | some c ↦ if c.type == "Complete" then succeeded else failed
]

-- the key of a chart's job, in kube-system
abbrev pub job_key : HelmChartResource → NamespacedName
job_key chart = record { namespace = kube_system_namespace; name = chart.job_name }

-- `return ChartStateUnknown, client.IgnoreNotFound(err)`
unfoldable pub state_of_job : Result Job → Result HelmChartState
unfolding job_state
state_of_job (ok job) = ok (job_state job)
state_of_job (err e) = if is_not_found e then ok unknown else err e
state_of_job (panic p) = panic p

module _ (e : Env) where
  open e use {World}

  unfoldable pub update_helm_chart : HelmChartResource → ChartFields → Eff World (Unit {0})
  update_helm_chart chart release_chart = do
    owner ← the_plan
    merged ← lift (
        in_context "merging chart values" (
          merge_helm_values e.codec (text chart.spec.values_content) release_chart.values
            (find_user_values release_chart.name owner.spec.helm)))
    let updated = updated_chart_resource owner chart release_chart merged
    act (updated_chart updated) (e.update_helm_chart updated)

  unfoldable pub create_helm_chart : HelmRelease → ChartFields → Eff World (Unit {0})
  create_helm_chart installed release_chart = do
    owner ← the_plan
    merged ← lift (
        in_context "merging chart values" (
          merge_helm_values e.codec (values installed.config) release_chart.values
            (find_user_values release_chart.name owner.spec.helm)))
    create_object e (helm_chart (new_chart_resource owner installed release_chart merged))

  -- The chart's resource exists.
  unfoldable pub upgrade_existing_chart : ChartFields → HelmChartResource → Eff World HelmChartState
  upgrade_existing_chart release_chart chart = do
    owner ← the_plan
    if chart.spec.version == release_chart.version
        then (if or_empty (lookup release_annotation chart.metadata.annotations)
              == owner.spec.release_version
            then (λ s. (state_of_job (e.get_job (job_key chart) s.world), s))
            else pure version_already_installed)
        else (update_helm_chart chart release_chart >> pure in_progress)

  -- The chart's resource does not exist.
  unfoldable pub upgrade_missing_chart : ChartFields → HelmRelease → Eff World HelmChartState
  upgrade_missing_chart release_chart release =
      if release.chart_version == release_chart.version
      then pure version_already_installed
      else (create_helm_chart release release_chart >> pure in_progress)

  -- by what `retrieveHelmRelease` answered
  unfoldable pub upgrade_release : ChartFields → Result HelmRelease → Eff World HelmChartState
  upgrade_release release_chart (ok release) =
      if_found (e.get_helm_chart (chart_namespaced_name release.name))
        (upgrade_missing_chart release_chart release) (upgrade_existing_chart release_chart)
  upgrade_release release_chart (err error) =
      if is_release_not_found error
      then pure not_installed
      else raise (wrap "retrieving helm release" error)
  upgrade_release release_chart (panic p) = lift (panic p)

  unfoldable pub upgrade_helm_chart : ChartFields → Eff World HelmChartState
  upgrade_helm_chart release_chart s =
      upgrade_release release_chart (retrieve_helm_release e s.world release_chart.release_name) s
