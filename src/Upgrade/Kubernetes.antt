-- ===== src/Upgrade/Kubernetes.antt =====
-- internal/upgrade/kubernetes.go. A plan builder writes its key into the caller's label map, so it
-- returns the plan and the map.
use upgrade_controller.Prelude.{
  String, ◌++◌, Bool, true, some, [], ◌∷◌, Dict, insert, replace_chars, contains, if◌then◌else◌,
}
use upgrade_controller.Kube.{Plan}
use upgrade_controller.Upgrade.Base.{
  control_plane_key, workers_key, base_upgrade_plan, control_plane_selector, worker_selector,
  control_plane_tolerations,
}

abbrev pub rke2_upgrade_image : String
rke2_upgrade_image = "rancher/rke2-upgrade"

abbrev pub k3s_upgrade_image : String
k3s_upgrade_image = "rancher/k3s-upgrade"

-- the version with `.` and `+` replaced
version_part : String → String
unfolding replace_chars
version_part = replace_chars ((".", "-") ∷ ("+", "-") ∷ [])

unfoldable pub kubernetes_plan_name : String → String → String → String
unfolding version_part
kubernetes_plan_name type_key version suffix =
    type_key ++ "-" ++ version_part version ++ "-" ++ suffix

unfoldable pub kubernetes_upgrade_image : String → String
unfolding contains
kubernetes_upgrade_image version =
    if contains version "k3s" then k3s_upgrade_image else rke2_upgrade_image

unfoldable pub kubernetes_control_plane_plan :
    String → String → Bool → Dict String → Plan × Dict String
unfolding insert
kubernetes_control_plane_plan name_suffix version drain labels =
    let name = kubernetes_plan_name control_plane_key version name_suffix in
    let labels' = insert "k8s-upgrade" "control-plane" labels in
    let plan = base_upgrade_plan name drain labels' in
    (
      record plan {
        spec = record (plan.spec) {
          node_selector = some control_plane_selector;
          concurrency = 1;
          upgrade =
              some (record { image = kubernetes_upgrade_image version; command = []; args = [] });
          version = version;
          cordon = true;
          tolerations = control_plane_tolerations;
        };
      },
      labels',
    )

unfoldable pub kubernetes_worker_plan : String → String → Bool → Dict String → Plan × Dict String
unfolding insert
kubernetes_worker_plan name_suffix version drain labels =
    let control_plane_name = kubernetes_plan_name control_plane_key version name_suffix in
    let name = kubernetes_plan_name workers_key version name_suffix in
    let image = kubernetes_upgrade_image version in
    let labels' = insert "k8s-upgrade" "worker" labels in
    let plan = base_upgrade_plan name drain labels' in
    (
      record plan {
        spec = record (plan.spec) {
          concurrency = 1;
          node_selector = some worker_selector;
          prepare =
              some (record {
                image = image;
                command = [];
                args = "prepare" ∷ control_plane_name ∷ [];
              });
          upgrade = some (record { image = image; command = []; args = [] });
          version = version;
          cordon = true;
        };
      },
      labels',
    )
