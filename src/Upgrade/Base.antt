-- ===== src/Upgrade/Base.antt =====
-- internal/upgrade/base.go
use upgrade_controller.Prelude.{
  ℕ, String, Bool, true, none, some, List, [], ◌∷◌, Dict, encode_hex, if◌then◌else◌,
}
use upgrade_controller.Errors.{Result, in_context, ok, ◌>>=◌}
use upgrade_controller.Kube.{LabelSelector, Plan, DrainSpec, Toleration, object_meta}

abbrev pub plan_name_label : String
plan_name_label = "lifecycle.suse.com/upgrade-plan-name"

abbrev pub plan_namespace_label : String
plan_namespace_label = "lifecycle.suse.com/upgrade-plan-namespace"

abbrev pub release_annotation : String
release_annotation = "lifecycle.suse.com/release"

abbrev pub control_plane_label : String
control_plane_label = "node-role.kubernetes.io/control-plane"

abbrev pub kube_system_namespace : String
kube_system_namespace = "kube-system"

abbrev pub suc_namespace : String
suc_namespace = "cattle-system"

abbrev pub control_plane_key : String
control_plane_key = "control-plane"

abbrev pub workers_key : String
workers_key = "workers"

abbrev pub random_byte_num : ℕ
random_byte_num = 5

unfoldable pub plan_identifier_labels : String → String → Dict String
plan_identifier_labels name namespace =
    (plan_name_label, name) ∷ (plan_namespace_label, namespace) ∷ []

-- `rand.Read` gives the bytes, or an error.
unfoldable pub generate_suffix : Result (List ℕ) → Result String
unfolding encode_hex
generate_suffix read = do bytes ← in_context "generating random bytes" read; ok (encode_hex bytes)

drain_spec : DrainSpec
drain_spec = record {
  timeout = "15m";
  delete_emptydir_data = true;
  ignore_daemon_sets = true;
  force = true;
}

unfoldable pub base_upgrade_plan : String → Bool → Dict String → Plan
unfolding drain_spec
base_upgrade_plan name drain labels = record {
  type_meta = record { kind = "Plan"; api_version = "upgrade.cattle.io/v1" };
  metadata = object_meta name suc_namespace labels;
  spec = record {
    concurrency = 0;
    job_active_deadline_secs = none;
    node_selector = none;
    service_account_name = "system-upgrade-controller";
    tolerations = [];
    prepare = none;
    upgrade = none;
    cordon = Bool.false;
    drain = if drain then some drain_spec else none;
    secrets = [];
    version = "";
  };
  applying = [];
}

-- The selectors and tolerations that both pairs of plans write out.
unfoldable pub control_plane_selector : LabelSelector
control_plane_selector = record {
  match_labels = [];
  match_expressions =
      record { key = control_plane_label; operator = "In"; values = "true" ∷ [] } ∷ [];
}

unfoldable pub worker_selector : LabelSelector
worker_selector = record {
  match_labels = [];
  match_expressions =
      record { key = control_plane_label; operator = "NotIn"; values = "true" ∷ [] } ∷ [];
}

unfoldable pub control_plane_tolerations : List Toleration
control_plane_tolerations =
    record { key = "CriticalAddonsOnly"; operator = "Equal"; value = "true"; effect = "NoExecute" }
    ∷ record { key = control_plane_label; operator = "Equal"; value = ""; effect = "NoSchedule" }
    ∷ record {
      key = "node-role.kubernetes.io/etcd";
      operator = "Equal";
      value = "";
      effect = "NoExecute";
    }
    ∷ []
