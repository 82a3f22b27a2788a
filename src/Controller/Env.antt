-- ===== src/Controller/Env.antt =====
-- What the reconciler does not implement: the API server and its client, Helm's storage, the
-- random source, and the functions of k8s.io/apimachinery, controller-runtime and Helm.
use upgrade_controller.Prelude.{ℕ, String, Bool, Option, List, Dict}
use upgrade_controller.Errors.{Result}
use upgrade_controller.Kube.{
  NamespacedName, ListOptions, Condition, LabelSelector, Node, Secret, Plan, Job, Deployment,
  HelmChartResource, Object,
}
use upgrade_controller.Api.UpgradePlan.{UpgradePlan}
use upgrade_controller.Api.ReleaseManifest.{ReleaseManifest}
use upgrade_controller.Upgrade.Os.{ScriptValues}
use upgrade_controller.Upgrade.ReleaseManifest.{ContainerImage}
use upgrade_controller.Controller.Values.{Fields, Codec}

-- helm.sh/helm/v3/pkg/release; `version` is the revision
pub record HelmRelease : Type 0 where
  pub name : String
  pub namespace : String
  pub version : ℕ
  pub config : Fields
  pub chart_version : String

-- k8s.io/apimachinery/pkg/api/meta
pub record ConditionOps : Type 0 where
  pub set_status_condition : List Condition → Condition → List Condition
  pub find_status_condition : List Condition → String → Option Condition
  pub is_status_condition_true : List Condition → String → Bool

-- controllerutil, on the finalizers of an object
pub record FinalizerOps : Type 0 where
  pub contains_finalizer : List String → String → Bool
  pub add_finalizer : List String → String → List String
  pub remove_finalizer : List String → String → List String

pub record Env : Type 1 where
  -- the cluster
  pub World : Type 0
  pub get_upgrade_plan : NamespacedName → World → Result UpgradePlan
  pub get_secret : NamespacedName → World → Result Secret
  pub get_plan : NamespacedName → World → Result Plan
  pub get_job : NamespacedName → World → Result Job
  pub get_deployment : NamespacedName → World → Result Deployment
  pub get_helm_chart : NamespacedName → World → Result HelmChartResource
  pub list_nodes : World → Result (List Node)
  pub list_release_manifests : (namespace : String) → World → Result (List ReleaseManifest)
  pub list_plans : ListOptions → World → Result (List Plan)
  pub list_secrets : ListOptions → World → Result (List Secret)
  pub create : Object → World → Result (Unit {0}) × World
  pub update_upgrade_plan : UpgradePlan → World → Result (Unit {0}) × World
  pub update_status : UpgradePlan → World → Result (Unit {0}) × World
  pub update_helm_chart : HelmChartResource → World → Result (Unit {0}) × World
  pub delete_plan : Plan → World → Result (Unit {0}) × World
  pub delete_secret : Secret → World → Result (Unit {0}) × World
  -- the Helm storage: the two calls of its set-up that may fail, and the releases of a name
  pub get_config : World → Result (Unit {0})
  pub new_kubernetes_client : World → Result (Unit {0})
  pub history : String → World → Result (List HelmRelease)
  -- `helmutil.Reverse(releases, helmutil.SortByRevision)`
  pub reverse_by_revision : List HelmRelease → List HelmRelease
  -- `rand.Read` of that many bytes
  pub read_random : ℕ → World → Result (List ℕ) × World
  -- `retry.OnError` with that many steps, at any state, where every error is retriable
  pub retry_on_error :
      (steps : ℕ) (S : Type 0) → (S → Result (Unit {0}) × S) → S → Result (Unit {0}) × S
  -- `metav1.LabelSelectorAsSelector`, and `Matches` of what it returns
  pub label_selector_as_selector : Option LabelSelector → Result (Dict String → Bool)
  pub execute_template : ScriptValues → Result String
  pub conditions : ConditionOps
  pub finalizers : FinalizerOps
  pub codec : Codec
  -- `chart.Label` of the Helm Controller
  pub chart_label : String
  -- the reconciler's own fields
  pub service_account : String
  pub release_manifest_image : String
  pub kubectl : ContainerImage
