-- ===== src/Kube/Objects.antt =====
-- The API objects that the program creates, reads, updates or deletes.
use upgrade_controller.Prelude.{ℕ, String, Bool, Option, List, Dict}
use upgrade_controller.Kube.Meta.{TypeMeta, ObjectMeta, LabelSelector, StatusCondition}
use upgrade_controller.Kube.Workloads.{Container, PodTemplate, Toleration}

pub record Secret : Type 0 where
  pub type_meta : TypeMeta
  pub metadata : ObjectMeta
  pub type : String
  pub string_data : Dict String

-- upgradecattlev1, System Upgrade Controller
pub record DrainSpec : Type 0 where
  pub timeout : String
  pub delete_emptydir_data : Bool
  pub ignore_daemon_sets : Bool
  pub force : Bool

pub record SecretSpec : Type 0 where
  pub name : String
  pub path : String

pub record ContainerSpec : Type 0 where
  pub image : String
  pub command : List String
  pub args : List String

pub record PlanSpec : Type 0 where
  pub concurrency : ℕ
  pub job_active_deadline_secs : Option ℕ
  pub node_selector : Option LabelSelector
  pub service_account_name : String
  pub tolerations : List Toleration
  pub prepare : Option ContainerSpec
  pub upgrade : Option ContainerSpec
  pub cordon : Bool
  pub drain : Option DrainSpec
  pub secrets : List SecretSpec
  pub version : String

pub record Plan : Type 0 where
  pub type_meta : TypeMeta
  pub metadata : ObjectMeta
  pub spec : PlanSpec
  -- `Status.Applying`: the nodes that the plan is being applied to
  pub applying : List String

pub record Job : Type 0 where
  pub type_meta : TypeMeta
  pub metadata : ObjectMeta
  pub template : PodTemplate
  pub ttl_seconds_after_finished : Option ℕ
  pub conditions : List StatusCondition

pub record Deployment : Type 0 where
  pub metadata : ObjectMeta
  pub conditions : List StatusCondition
  pub containers : List Container

-- helmcattlev1.HelmChart, Helm Controller
pub record HelmChartSpec : Type 0 where
  pub target_namespace : String
  pub chart : String
  pub chart_content : String
  pub version : String
  pub repo : String
  pub values_content : String
  pub back_off_limit : Option ℕ

pub record HelmChartResource : Type 0 where
  pub type_meta : TypeMeta
  pub metadata : ObjectMeta
  pub spec : HelmChartSpec
  pub job_name : String

-- what `createObject` is given
pub data Object : Type 0 where
  secret : Secret → Object
  plan : Plan → Object
  job : Job → Object
  helm_chart : HelmChartResource → Object

abbrev pub metadata : Object → ObjectMeta
metadata (secret o) = o.metadata
metadata (plan o) = o.metadata
metadata (job o) = o.metadata
metadata (helm_chart o) = o.metadata

abbrev pub kind : Object → String
kind (secret o) = o.type_meta.kind
kind (plan o) = o.type_meta.kind
kind (job o) = o.type_meta.kind
kind (helm_chart o) = o.type_meta.kind
