-- ===== src/Cmd/Options.antt =====
-- cmd/main.go: the flags, and what the manager and the reconciler are given for them.
use upgrade_controller.Prelude.{
  String, Bool, false, List, [], ◌∷◌, ◌==◌, Dict, insert, if◌then◌else◌,
}
use upgrade_controller.Upgrade.Base.{kube_system_namespace, suc_namespace}
use upgrade_controller.Upgrade.ReleaseManifest.{ContainerImage}
use upgrade_controller.Cmd.Flags.{Flag, string_var, bool_var}

-- the variables of `main` that the flags set
pub record Variables : Type 0 where
  pub metrics_addr : String
  pub enable_leader_election : Bool
  pub probe_addr : String
  pub secure_metrics : Bool
  pub enable_http2 : Bool
  pub watch_namespace : String
  pub release_manifest_image : String
  pub kubectl_image : String
  pub kubectl_version : String
  pub service_account_name : String

-- the defaults of the flags; `getenv` is `os.Getenv`
unfoldable pub default_variables : (String → String) → Variables
default_variables getenv = record {
  metrics_addr = "0";
  enable_leader_election = false;
  probe_addr = ":8081";
  secure_metrics = false;
  enable_http2 = false;
  watch_namespace = getenv "WATCH_NAMESPACE";
  release_manifest_image = getenv "RELEASE_MANIFEST_IMAGE";
  kubectl_image = getenv "KUBECTL_IMAGE";
  kubectl_version = getenv "KUBECTL_VERSION";
  service_account_name = getenv "SERVICE_ACCOUNT_NAME";
}

-- the flags, and behind them those that `zap.Options` binds
unfoldable pub main_flags : Dict (Flag Variables) → Dict (Flag Variables)
main_flags zap_flags =
    ("metrics-bind-address", string_var (λ text v. record v { metrics_addr = text }))
    ∷ ("health-probe-bind-address", string_var (λ text v. record v { probe_addr = text }))
    ∷ ("leader-elect", bool_var (λ b v. record v { enable_leader_election = b }))
    ∷ ("metrics-secure", bool_var (λ b v. record v { secure_metrics = b }))
    ∷ ("enable-http2", bool_var (λ b v. record v { enable_http2 = b }))
    ∷ ("namespace", string_var (λ text v. record v { watch_namespace = text }))
    ∷ ("release-manifest-image", string_var (λ text v. record v { release_manifest_image = text }))
    ∷ ("kubectl-image", string_var (λ text v. record v { kubectl_image = text }))
    ∷ ("kubectl-version", string_var (λ text v. record v { kubectl_version = text }))
    ∷ ("service-account-name", string_var (λ text v. record v { service_account_name = text }))
    ∷ zap_flags

-- tls.Config, as far as it is set
pub record TlsConfig : Type 0 where
  pub next_protos : List String

abbrev pub disable_http2 : TlsConfig → TlsConfig
disable_http2 c = record c { next_protos = "http/1.1" ∷ [] }

abbrev pub tls_opts : Variables → List (TlsConfig → TlsConfig)
tls_opts v = if v.enable_http2 then [] else disable_http2 ∷ []

-- The namespaces of the cache, where an empty map is all of them.
unfoldable pub watch_namespaces : Variables → Dict (Unit {0})
unfolding insert
watch_namespaces v =
    if v.watch_namespace == ""
    then []
    else insert suc_namespace tt (insert kube_system_namespace tt (insert v.watch_namespace tt []))

abbrev default_release_manifest_image : String
default_release_manifest_image =
    "registry.opensuse.org/isv/suse/edge/lifecycle/containerfile/release-manifest"

abbrev default_kubectl_image : String
default_kubectl_image = "registry.opensuse.org/isv/suse/edge/lifecycle/containerfile/kubectl"

abbrev default_kubectl_version : String
default_kubectl_version = "1.30.3"

abbrev or_default : String → String → String
or_default default text = if text == "" then default else text

-- the three variables that have another default
unfoldable pub with_defaults : Variables → Variables
with_defaults v = record v {
  release_manifest_image = or_default default_release_manifest_image v.release_manifest_image;
  kubectl_image = or_default default_kubectl_image v.kubectl_image;
  kubectl_version = or_default default_kubectl_version v.kubectl_version;
}

-- ctrl.Options, as far as it is set; the scheme is the one that `init` fills
pub record ManagerOptions : Type 0 where
  pub metrics_bind_address : String
  pub metrics_secure_serving : Bool
  pub metrics_tls_opts : List (TlsConfig → TlsConfig)
  pub webhook_tls_opts : List (TlsConfig → TlsConfig)
  pub health_probe_bind_address : String
  pub leader_election : Bool
  pub leader_election_id : String
  pub default_namespaces : Dict (Unit {0})

unfoldable pub manager_options : Variables → ManagerOptions
unfolding watch_namespaces
manager_options v = record {
  metrics_bind_address = v.metrics_addr;
  metrics_secure_serving = v.secure_metrics;
  metrics_tls_opts = tls_opts v;
  webhook_tls_opts = tls_opts v;
  health_probe_bind_address = v.probe_addr;
  leader_election = v.enable_leader_election;
  leader_election_id = "49a8982a.suse.com";
  default_namespaces = watch_namespaces v;
}

-- the fields of UpgradePlanReconciler that `main` sets from its variables
pub record ReconcilerOptions : Type 0 where
  pub service_account : String
  pub release_manifest_image : String
  pub kubectl : ContainerImage

unfoldable pub reconciler_options : Variables → ReconcilerOptions
reconciler_options v = record {
  service_account = v.service_account_name;
  release_manifest_image = v.release_manifest_image;
  kubectl = record { name = v.kubectl_image; version = v.kubectl_version };
}
