-- ===== src/Tests/Cluster.antt =====
-- A cluster in memory, and the environment over it.
use upgrade_controller.Prelude.{
  String, ◌++◌, refl, Option, none, some, List, [], ◌∷◌, Dict, lookup, arith,
}
use upgrade_controller.Errors.{Result, ok, err, not_found}
use upgrade_controller.Kube.{Node, Secret, Plan, Job, Deployment, HelmChartResource}
use upgrade_controller.Api.UpgradePlan.{UpgradePlan}
use upgrade_controller.Api.ReleaseManifest.{ReleaseManifest}
use upgrade_controller.Controller.Env.{Env, HelmRelease}
use upgrade_controller.Controller.Values.{Fields, end, field, scalar}
use upgrade_controller.Controller.Effects.Keeps.{RetryLaws}
use upgrade_controller.Controller.Nodes.Selection.{SelectorLaws}
use upgrade_controller.Tests.Library.{sample_conditions, sample_finalizers, selector, retry}

-- The objects by their names; writes succeed and are not stored.
pub record Cluster : Type 0 where
  pub upgrade_plans : Dict UpgradePlan
  pub secrets : Dict Secret
  pub plans : Dict Plan
  pub jobs : Dict Job
  pub deployments : Dict Deployment
  pub charts : Dict HelmChartResource
  pub releases : Dict HelmRelease
  pub nodes : List Node
  pub manifests : List ReleaseManifest

abbrev at : {A : Type 0} → Option A → Result A
at none = err not_found
at (some a) = ok a

abbrev all_of : {A : Type 0} → Dict A → List A
all_of [] = []
all_of ((k, a) ∷ rest) = a ∷ all_of rest

abbrev to_list : {A : Type 0} → Option A → List A
to_list none = []
to_list (some a) = a ∷ []

-- JSON and YAML of one key, whose value is "1"
abbrev pub one_key : String → Fields
one_key s = field s (scalar "1") end

abbrev pub sample_env : Env
sample_env = record {
  World = Cluster;
  get_upgrade_plan = λ key w. at (lookup key.name w.upgrade_plans);
  get_secret = λ key w. at (lookup key.name w.secrets);
  get_plan = λ key w. at (lookup key.name w.plans);
  get_job = λ key w. at (lookup key.name w.jobs);
  get_deployment = λ key w. at (lookup key.name w.deployments);
  get_helm_chart = λ key w. at (lookup key.name w.charts);
  list_nodes = λ w. ok w.nodes;
  list_release_manifests = λ ns w. ok w.manifests;
  list_plans = λ opts w. ok (all_of w.plans);
  list_secrets = λ opts w. ok (all_of w.secrets);
  create = λ o w. (ok tt, w);
  update_upgrade_plan = λ p w. (ok tt, w);
  update_status = λ p w. (ok tt, w);
  update_helm_chart = λ c w. (ok tt, w);
  delete_plan = λ p w. (ok tt, w);
  delete_secret = λ x w. (ok tt, w);
  get_config = λ w. ok tt;
  new_kubernetes_client = λ w. ok tt;
  history = λ name w. ok (to_list (lookup name w.releases));
  reverse_by_revision = λ rs. rs;
  read_random = λ n w. (ok (1 ∷ 35 ∷ 69 ∷ 103 ∷ 137 ∷ []), w);
  retry_on_error = retry;
  label_selector_as_selector = selector;
  execute_template = λ v. ok ("upgrade to " ++ v.version);
  conditions = sample_conditions;
  finalizers = sample_finalizers;
  codec = record {
    yaml_unmarshal = λ s. ok (one_key s);
    yaml_marshal = λ m. ok "yaml";
    json_unmarshal = λ s. ok (one_key s);
  };
  chart_label = "helmcharts.helm.cattle.io/chart";
  service_account = "upgrade-controller";
  release_manifest_image = "registry.example/release-manifest";
  kubectl = record { name = "kubectl"; version = "1.30" };
}

pub sample_env-RetryLaws : RetryLaws sample_env
sample_env-RetryLaws = record { attempts_lem = λ more S f s. (more, ground arith, refl) }

pub sample_env-SelectorLaws : SelectorLaws sample_env
sample_env-SelectorLaws = record { in_lem = refl; not_in_lem = refl }
