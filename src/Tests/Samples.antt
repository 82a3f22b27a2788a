-- ===== src/Tests/Samples.antt =====
-- An upgrade plan, a release and a cluster, for the tests.
use upgrade_controller.Prelude.{ℕ, String, false, Option, none, some, List, [], ◌∷◌, Dict}
use upgrade_controller.Kube.{
  object_meta, Node, Plan, Secret, Deployment, condition_true, LabelSelector,
}
use upgrade_controller.Api.UpgradePlan.{UpgradePlan, upgrade_plan_finalizer}
use upgrade_controller.Api.ReleaseManifest as Manifest
use upgrade_controller.Api.ReleaseManifest.{
  OperatingSystem, ReleaseManifestSpec, KubernetesDistribution, ChartFields, HelmChart, HelmCharts,
  CoreComponent, CoreComponentType,
}
use upgrade_controller.Upgrade.Base.{
  control_plane_label, control_plane_selector, worker_selector, base_upgrade_plan,
}
use upgrade_controller.Controller.Env.{HelmRelease}
use upgrade_controller.Controller.Effects.{State}
use upgrade_controller.Tests.Cluster.{Cluster, one_key}

abbrev pub plan_with : List String → Option ℕ → UpgradePlan
plan_with finalizers deleted = record {
  metadata = record (object_meta "upgrade" "default" []) {
    generation = 2;
    deletion_timestamp = deleted;
    finalizers = finalizers;
  };
  spec = record { release_version = "3.1.0"; disable_drain = none; helm = [] };
  status = record {
    conditions = [];
    observed_generation = 2;
    suc_name_suffix = "abc";
    last_successful_release_version = "";
  };
}

abbrev pub sample_plan : UpgradePlan
sample_plan = plan_with (upgrade_plan_finalizer ∷ []) none

abbrev pub deleted_plan : UpgradePlan
deleted_plan = plan_with (upgrade_plan_finalizer ∷ []) (some 7)

abbrev pub sample_os : OperatingSystem
sample_os = record {
  version = "6.1";
  zypper_id = "SL-Micro";
  cpe_scheme = "cpe:/o:suse:sl-micro";
  supported_archs = [];
  pretty_name = "SUSE Linux Micro 6.1";
}

-- a deployment that is upgraded, and a chart that the cluster does not have
abbrev pub core_components : List CoreComponent
core_components =
    record {
      name = "coredns";
      version = "1.11.1";
      containers = record { name = "coredns"; image = "coredns:1.11.1" } ∷ [];
      type = CoreComponentType.deployment_type;
    }
    ∷ record {
      name = "traefik";
      version = "25.0.3";
      containers = [];
      type = CoreComponentType.helm_chart_type;
    }
    ∷ []

abbrev pub coredns : Deployment
coredns = record {
  metadata = object_meta "coredns" "kube-system" [];
  conditions = record { type = "Available"; status = condition_true; message = "" } ∷ [];
  containers =
      record {
        name = "coredns";
        image = "registry.example/coredns:1.11.1";
        command = [];
        args = [];
        volume_mounts = [];
      }
      ∷ [];
}

abbrev pub distribution : String → KubernetesDistribution
distribution version = record { version = version; core_components = core_components }

abbrev pub sample_kubernetes : Manifest.Kubernetes
sample_kubernetes = record {
  k3s = distribution "v1.30.3+k3s1";
  rke2 = distribution "v1.30.3+rke2r1";
}

abbrev pub chart_fields : ChartFields
chart_fields = record {
  release_name = "metal3";
  name = "metal3-chart";
  repository = "oci://charts";
  version = "0.8.1";
  pretty_name = "Metal3";
  values = none;
}

abbrev pub sample_chart : HelmChart
sample_chart = HelmChart.helm_chart chart_fields HelmCharts.nil HelmCharts.nil

abbrev pub sample_release : ReleaseManifestSpec
sample_release = record {
  release_version = "3.1.0";
  components = record {
    kubernetes = sample_kubernetes;
    operating_system = sample_os;
    helm = sample_chart ∷ [];
  };
}

abbrev pub node : String → Dict String → Node
node name labels = record {
  name = name;
  labels = labels;
  unschedulable = false;
  conditions = record { type = "Ready"; status = condition_true; message = "" } ∷ [];
  architecture = "amd64";
  os_image = "SUSE Linux Micro 6.1";
  kubelet_version = "v1.30.3+k3s1";
}

abbrev pub sample_nodes : List Node
sample_nodes = node "cp" ((control_plane_label, "true") ∷ []) ∷ node "worker" [] ∷ []

abbrev pub selecting : String → LabelSelector → Plan
selecting name selector =
    let base = base_upgrade_plan name false [] in
    record base { spec = record (base.spec) { node_selector = some selector } }

abbrev pub sample_secret : Secret
sample_secret = record {
  type_meta = record { kind = "Secret"; api_version = "v1" };
  metadata = object_meta "os-upgrade-secret-sl-micro-6-1-abc" "cattle-system" [];
  type = "Opaque";
  string_data = [];
}

abbrev pub installed_release : HelmRelease
installed_release = record {
  name = "metal3";
  namespace = "metal3-system";
  version = 1;
  config = one_key "a";
  chart_version = "0.7.0";
}

-- the objects of an upgrade whose nodes are done
abbrev pub sample_cluster : Cluster
sample_cluster = record {
  upgrade_plans = ("upgrade", sample_plan) ∷ [];
  secrets = (sample_secret.metadata.name, sample_secret) ∷ [];
  plans =
      ("control-plane-sl-micro-6-1-abc", selecting "os-cp" control_plane_selector)
      ∷ ("workers-sl-micro-6-1-abc", selecting "os-workers" worker_selector)
      ∷ ("control-plane-v1-30-3-k3s1-abc", selecting "k8s-cp" control_plane_selector)
      ∷ ("workers-v1-30-3-k3s1-abc", selecting "k8s-workers" worker_selector)
      ∷ [];
  jobs = [];
  deployments = ("coredns", coredns) ∷ [];
  charts = [];
  releases = ("metal3", installed_release) ∷ [];
  nodes = sample_nodes;
  manifests = record { metadata = object_meta "release" "default" []; spec = sample_release } ∷ [];
}

abbrev pub state_of : UpgradePlan → State Cluster
state_of plan = record { world = sample_cluster; plan = plan; trace = [] }
