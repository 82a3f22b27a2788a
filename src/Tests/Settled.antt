-- ===== src/Tests/Settled.antt =====
-- A cluster in which the release of two charts is done.
use upgrade_controller.Prelude.{◌≡◌, refl, inr, List, [], ◌∷◌, length, none, some, ◌+◌}
use upgrade_controller.Prelude as P
use upgrade_controller.Errors.{not_found}
use upgrade_controller.Kube.{Node, object_meta, HelmChartResource}
use upgrade_controller.Api.ReleaseManifest as A
use upgrade_controller.Api.ReleaseManifest.{HelmChart, HelmCharts, ReleaseManifestSpec, fields}
use upgrade_controller.Upgrade.Base.{
  release_annotation, control_plane_label, control_plane_selector, worker_selector,
}
use upgrade_controller.Controller.Nodes as N
use upgrade_controller.Controller.ReleaseManifest as RM
use upgrade_controller.Controller.Charts as Ch
use upgrade_controller.Controller.Releases as Rl
use upgrade_controller.Controller.Reconcile.{reconcile_release, reconcile_normal}
use upgrade_controller.Controller.Nodes.{is_os_upgraded, is_kubernetes_upgraded}
use upgrade_controller.Controller.Reconcile.Recorded.{Recording, reconcile_release-Recording}
use upgrade_controller.Controller.Progression.Settled.{OsDone, KubernetesDone}
use upgrade_controller.Controller.Progression.Settled.Done.{installed, completed, ChartDone}
use upgrade_controller.Controller.Progression.Settled.Passes.{Settled}
use upgrade_controller.Controller.Progression.Liveness.{
  Recorded, requeued_passes, requeued_passes-Recorded,
}
use upgrade_controller.Controller.Reconcile as R
use upgrade_controller.Controller.Progression.Requeue.Passes.{
  Progressed, reconcile_release-Progressed,
}
use upgrade_controller.Tests.Library.{sample_conditions-ConditionLaws}
use upgrade_controller.Tests.Cluster.{Cluster, sample_env}
use upgrade_controller.Tests.Stages.{runs}
use upgrade_controller.Tests.Helm.{completed_job}
use upgrade_controller.Tests.Order.{second_chart, two_charts, two_charts-TypesDistinct}
use upgrade_controller.Tests.Samples.{
  sample_plan, sample_cluster, installed_release, sample_nodes, sample_secret, distribution,
  selecting, sample_kubernetes, node, sample_chart,
}

abbrev done_resource : HelmChartResource
done_resource = record {
  type_meta = record { kind = "HelmChart"; api_version = "helm.cattle.io/v1" };
  metadata = record (object_meta "neuvector" "kube-system" []) {
    annotations = (release_annotation, "3.1.0") ∷ [];
  };
  spec = record {
    target_namespace = "neuvector";
    chart = "neuvector";
    chart_content = "";
    version = "0.8.1";
    repo = "";
    values_content = "";
    back_off_limit = none;
  };
  job_name = "helm-install-neuvector";
}

-- Metal3 is at the wanted version without a resource, NeuVector's job is complete.
abbrev done_cluster : Cluster
done_cluster = record sample_cluster {
  jobs = ("helm-install-neuvector", completed_job) ∷ [];
  charts = ("neuvector", done_resource) ∷ [];
  releases =
      ("metal3", record installed_release { chart_version = "0.8.1" })
      ∷ ("neuvector", record installed_release { name = "neuvector" })
      ∷ [];
  manifests = record { metadata = object_meta "release" "default" []; spec = two_charts } ∷ [];
}

abbrev cp_node : List Node
cp_node = node "cp" ((control_plane_label, "true") ∷ []) ∷ []

abbrev worker_node : List Node
worker_node = node "worker" [] ∷ []

os_done :
    OsDone sample_env sample_nodes done_cluster sample_plan "3.1.0"
      two_charts.components.operating_system
unfolding runs
os_done = record {
  made = _;
  stored = sample_secret;
  generated = refl;
  found = refl;
  plans = record {
    control_plane = record {
      stored = selecting "os-cp" control_plane_selector;
      selected = cp_node;
      found = refl;
      matching = refl;
      nodes_upgraded = refl;
    };
    workers = inr (
      refl,
      record {
        stored = selecting "os-workers" worker_selector;
        selected = worker_node;
        found = refl;
        matching = refl;
        nodes_upgraded = refl;
      },
    );
  };
}

kubernetes_done : KubernetesDone sample_env sample_nodes done_cluster sample_plan sample_kubernetes
unfolding runs
kubernetes_done = record {
  distro = distribution "v1.30.3+k3s1";
  target = refl;
  plans = record {
    control_plane = record {
      stored = selecting "k8s-cp" control_plane_selector;
      selected = cp_node;
      found = refl;
      matching = refl;
      nodes_upgraded = refl;
    };
    workers = inr (
      refl,
      record {
        stored = selecting "k8s-workers" worker_selector;
        selected = worker_node;
        found = refl;
        matching = refl;
        nodes_upgraded = refl;
      },
    );
  };
  components = refl;
}

metal3_done : ChartDone sample_env done_cluster "3.1.0" sample_chart
unfolding P.lookup Rl.retrieve_helm_release
metal3_done = record {
  dependencies = tt;
  core = record {
    release = record installed_release { chart_version = "0.8.1" };
    installed_release = refl;
    resource = installed not_found refl refl refl;
  };
  addons = tt;
}

neuvector_done : ChartDone sample_env done_cluster "3.1.0" second_chart
unfolding P.lookup Rl.retrieve_helm_release Ch.job_state
neuvector_done = record {
  dependencies = tt;
  core = record {
    release = record installed_release { name = "neuvector" };
    installed_release = refl;
    resource = completed done_resource completed_job refl refl refl refl refl;
  };
  addons = tt;
}

settled : Settled sample_env two_charts done_cluster sample_plan
unfolding A.short A.add_architectures A.supported_architectures P.insert P.lookup
    N.find_unsupported_nodes RM.find_manifest
settled = record {
  observed = refl;
  manifests = _;
  manifest = _;
  manifests_listed = refl;
  manifest_found = refl;
  manifest_spec = refl;
  nodes = sample_nodes;
  listed = refl;
  architectures = _;
  known = refl;
  all_supported = refl;
  os = os_done;
  kubernetes = kubernetes_done;
  charts = (metal3_done, (neuvector_done, tt));
}

requeued_passes-Recorded_example :
    Recorded sample_env two_charts
      (record { world = done_cluster; plan = sample_plan; trace = [] })
      (requeued_passes
        (reconcile_normal sample_env)
        4
        (record { world = done_cluster; plan = sample_plan; trace = [] }))
requeued_passes-Recorded_example =
    requeued_passes-Recorded sample_env sample_conditions-ConditionLaws two_charts
      two_charts-TypesDistinct (record { world = done_cluster; plan = sample_plan; trace = [] })
      settled

-- the first pass, over the operating system
reconcile_release-Progressed_example :
    Progressed sample_env two_charts
      (record { world = done_cluster; plan = sample_plan; trace = [] })
      (reconcile_release sample_env two_charts
        (record { world = done_cluster; plan = sample_plan; trace = [] })).1.plan
unfolding runs A.short A.add_architectures A.supported_architectures P.insert P.lookup
    N.find_unsupported_nodes R.reconcile_stage R.reconcile_supported R.reconcile_release
reconcile_release-Progressed_example =
    reconcile_release-Progressed sample_env sample_conditions-ConditionLaws two_charts
      two_charts-TypesDistinct (record { world = done_cluster; plan = sample_plan; trace = [] })
      refl

reconcile_release-Recording_example :
    Recording sample_env.conditions two_charts sample_plan
      (reconcile_release sample_env two_charts
        (record { world = done_cluster; plan = sample_plan; trace = [] })).1.plan
reconcile_release-Recording_example =
    reconcile_release-Recording sample_env two_charts
      (record { world = done_cluster; plan = sample_plan; trace = [] })
