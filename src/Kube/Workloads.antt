-- ===== src/Kube/Workloads.antt =====
-- k8s.io/api: containers, pod templates and nodes.
use upgrade_controller.Prelude.{String, Bool, List, Dict}
use upgrade_controller.Kube.Meta.{StatusCondition}

pub record VolumeMount : Type 0 where
  pub name : String
  pub mount_path : String

pub record Container : Type 0 where
  pub name : String
  pub image : String
  pub command : List String
  pub args : List String
  pub volume_mounts : List VolumeMount

-- the template of a job, with its volumes as the names of empty directories
pub record PodTemplate : Type 0 where
  pub name : String
  pub namespace : String
  pub init_containers : List Container
  pub containers : List Container
  pub empty_dir_volumes : List String
  pub restart_policy : String
  pub service_account_name : String

pub record Toleration : Type 0 where
  pub key : String
  pub operator : String
  pub value : String
  pub effect : String

pub record Node : Type 0 where
  pub name : String
  pub labels : Dict String
  pub unschedulable : Bool
  pub conditions : List StatusCondition
  pub architecture : String
  pub os_image : String
  pub kubelet_version : String
