-- ===== src/Upgrade/Os.antt =====
-- internal/upgrade/os.go. Go's text/template is the parameter `execute`, which is given the three
-- values and answers with the script of templates/os-upgrade.sh.tpl.
use upgrade_controller.Prelude.{
  String, ◌++◌, Bool, true, some, [], ◌∷◌, Dict, insert, dots_to_dashes, to_lower, join_path,
}
use upgrade_controller.Errors.{Result, ok, in_context, ◌>>=◌}
use upgrade_controller.Kube.{Secret, Plan, object_meta}
use upgrade_controller.Api.ReleaseManifest.{OperatingSystem}
use upgrade_controller.Upgrade.Base.{
  suc_namespace, control_plane_key, workers_key, base_upgrade_plan, control_plane_selector,
  worker_selector, control_plane_tolerations,
}

abbrev pub script_name : String
script_name = "os-upgrade.sh"

pub record ScriptValues : Type 0 where
  pub cpe_scheme : String
  pub zypper_id : String
  pub version : String

unfoldable pub os_plan_name : String → String → String → String → String
os_plan_name type_key os_name os_version suffix =
    type_key ++ "-" ++ to_lower os_name ++ "-" ++ dots_to_dashes os_version ++ "-" ++ suffix

unfoldable pub os_secret_name : String → String → String → String
os_secret_name os_name os_version suffix =
    "os-upgrade-secret-" ++ to_lower os_name ++ "-" ++ dots_to_dashes os_version ++ "-" ++ suffix

unfoldable pub os_upgrade_secret :
    (ScriptValues → Result String) → String → OperatingSystem → Dict String → Result Secret
os_upgrade_secret execute name_suffix release_os labels = do
  script ← in_context "applying template" (
      execute (record {
        cpe_scheme = release_os.cpe_scheme;
        zypper_id = release_os.zypper_id;
        version = release_os.version;
      }))
  ok (record {
    type_meta = record { kind = "Secret"; api_version = "v1" };
    metadata =
        object_meta (os_secret_name release_os.zypper_id release_os.version name_suffix)
          suc_namespace labels;
    type = "Opaque";
    string_data = (script_name, script) ∷ [];
  })

abbrev pub plan_image : String
plan_image = "registry.suse.com/bci/bci-base:15.6"

unfoldable pub base_os_plan : String → String → String → Bool → Dict String → Plan
base_os_plan plan_name release_version secret_name drain labels =
    let plan = base_upgrade_plan plan_name drain labels in
    let secret_path = "/run/system-upgrade/secrets/" ++ secret_name in
    record plan {
      spec = record (plan.spec) {
        secrets = record { name = secret_name; path = join_path "/host" secret_path } ∷ [];
        cordon = true;
        version = release_version;
        job_active_deadline_secs = some 43200;
        upgrade = some (record {
          image = plan_image;
          command = "chroot" ∷ "/host" ∷ [];
          args = "sh" ∷ join_path secret_path script_name ∷ [];
        });
      };
    }

unfoldable pub os_control_plane_plan :
    String → String → String → OperatingSystem → Bool → Dict String → Plan × Dict String
unfolding insert
os_control_plane_plan name_suffix release_version secret_name release_os drain labels =
    let name = os_plan_name control_plane_key release_os.zypper_id release_os.version name_suffix in
    let labels' = insert "os-upgrade" "control-plane" labels in
    let plan = base_os_plan name release_version secret_name drain labels' in
    (
      record plan {
        spec = record (plan.spec) {
          concurrency = 1;
          node_selector = some control_plane_selector;
          tolerations = control_plane_tolerations;
        };
      },
      labels',
    )

unfoldable pub os_worker_plan :
    String → String → String → OperatingSystem → Bool → Dict String → Plan × Dict String
unfolding insert
os_worker_plan name_suffix release_version secret_name release_os drain labels =
    let name = os_plan_name workers_key release_os.zypper_id release_os.version name_suffix in
    let labels' = insert "os-upgrade" "worker" labels in
    let plan = base_os_plan name release_version secret_name drain labels' in
    (
      record plan {
        spec = record (plan.spec) { concurrency = 1; node_selector = some worker_selector };
      },
      labels',
    )
