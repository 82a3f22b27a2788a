-- ===== src/Kube/Meta.antt =====
-- k8s.io/apimachinery: object metadata, conditions and selectors.
use upgrade_controller.Prelude.{
  ℕ, String, Bool, true, false, Option, none, some, List, [], ◌&&◌, ◌==◌, Dict, nat_eq,
}

pub record TypeMeta : Type 0 where
  pub kind : String
  pub api_version : String

pub record ObjectMeta : Type 0 where
  pub name : String
  pub namespace : String
  pub labels : Dict String
  pub annotations : Dict String
  pub generation : ℕ
  -- seconds since the zero time; `none` is nil
  pub deletion_timestamp : Option ℕ
  pub finalizers : List String

-- `metav1.ObjectMeta{Name: …, Namespace: …, Labels: …}`
abbrev pub object_meta : String → String → Dict String → ObjectMeta
object_meta name namespace labels = record {
  name = name;
  namespace = namespace;
  labels = labels;
  annotations = [];
  generation = 0;
  deletion_timestamp = none;
  finalizers = [];
}

-- `(*metav1.Time).IsZero`
abbrev pub is_zero : Option ℕ → Bool
is_zero none = true
is_zero (some t) = nat_eq t 0

pub record NamespacedName : Type 0 where
  pub namespace : String
  pub name : String

-- `client.ObjectKeyFromObject`
abbrev pub object_key : ObjectMeta → NamespacedName
object_key m = record { namespace = m.namespace; name = m.name }

-- metav1.ConditionStatus and corev1.ConditionStatus: three constants, or any other text
pub data ConditionStatus : Type 0 where
  condition_true condition_false condition_unknown : ConditionStatus
  other_status : String → ConditionStatus

abbrev pub is_true : ConditionStatus → Bool
is_true condition_true = true
is_true _ = false

abbrev pub is_false : ConditionStatus → Bool
is_false condition_false = true
is_false _ = false

-- metav1.Condition; the library keeps its LastTransitionTime, which the program never reads
pub record Condition : Type 0 where
  pub type : String
  pub status : ConditionStatus
  pub reason : String
  pub message : String

-- the conditions of nodes, jobs and deployments, whose other fields are not read
pub record StatusCondition : Type 0 where
  pub type : String
  pub status : ConditionStatus
  pub message : String

-- `condition.Status == ConditionTrue && condition.Type == t`
abbrev pub holds : String → StatusCondition → Bool
holds t c = is_true c.status && c.type == t

pub record Requirement : Type 0 where
  pub key : String
  pub operator : String
  pub values : List String

pub record LabelSelector : Type 0 where
  pub match_labels : Dict String
  pub match_expressions : List Requirement

pub record ListOptions : Type 0 where
  pub namespace : String
  pub match_labels : Dict String
