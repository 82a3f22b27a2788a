-- ===== src/Tests/Helm.antt =====
-- A chart whose upgrade job is complete.
use upgrade_controller.Prelude as P
use upgrade_controller.Prelude.{String, ◌≡◌, refl, none, some, List, [], ◌∷◌}
use upgrade_controller.Kube.{HelmChartResource, Job, object_meta, condition_true}
use upgrade_controller.Api.UpgradePlan.{get_chart_condition_type}
use upgrade_controller.Upgrade.Base.{release_annotation}
use upgrade_controller.Upgrade.Helm.{formatted_message}
use upgrade_controller.Controller.Effects.{effects, State}
use upgrade_controller.Controller.Releases.{retrieve_helm_release}
use upgrade_controller.Controller.Conditions as Cond
use upgrade_controller.Controller.Charts as C
use upgrade_controller.Controller.Helm as H
use upgrade_controller.Controller.Helm.Success.{ChartUpgraded, reconcile_helm_chart_success}
use upgrade_controller.Tests.Library.{
  set_status_condition, find_status_condition, sample_conditions-ConditionLaws,
}
use upgrade_controller.Tests.Cluster.{Cluster, sample_env}
use upgrade_controller.Tests.Samples.{sample_plan, sample_cluster, sample_chart}

abbrev upgraded_resource : HelmChartResource
upgraded_resource = record {
  type_meta = record { kind = "HelmChart"; api_version = "helm.cattle.io/v1" };
  metadata = record (object_meta "metal3" "kube-system" []) {
    annotations = (release_annotation, "3.1.0") ∷ [];
  };
  spec = record {
    target_namespace = "metal3-system";
    chart = "metal3-chart";
    chart_content = "";
    version = "0.8.1";
    repo = "oci://charts";
    values_content = "";
    back_off_limit = some 6;
  };
  job_name = "upgrade-metal3";
}

abbrev pub completed_job : Job
completed_job = record {
  type_meta = record { kind = "Job"; api_version = "batch/v1" };
  metadata = object_meta "upgrade-metal3" "kube-system" [];
  template = record {
    name = "upgrade-metal3";
    namespace = "kube-system";
    init_containers = [];
    containers = [];
    empty_dir_volumes = [];
    restart_policy = "OnFailure";
    service_account_name = "";
  };
  ttl_seconds_after_finished = none;
  conditions = record { type = "Complete"; status = condition_true; message = "" } ∷ [];
}

abbrev upgraded_state : State Cluster
upgraded_state = record {
  world = record sample_cluster {
    charts = ("metal3", upgraded_resource) ∷ [];
    jobs = ("upgrade-metal3", completed_job) ∷ [];
  };
  plan = sample_plan;
  trace = [];
}

reconcile_helm_chart_success_example : ChartUpgraded sample_env sample_chart upgraded_state
unfolding effects get_chart_condition_type P.lookup retrieve_helm_release formatted_message
    set_status_condition find_status_condition Cond.set_condition Cond.set_successful_condition
    Cond.evaluate_helm_chart_state C.job_state C.state_of_job C.upgrade_existing_chart
    C.upgrade_release C.upgrade_helm_chart H.set_state H.upgrade_dependencies H.upgrade_addons
    H.reconcile_core_state H.reconcile_core H.reconcile_helm_chart
reconcile_helm_chart_success_example =
    reconcile_helm_chart_success sample_env sample_conditions-ConditionLaws sample_chart
      upgraded_state refl refl
