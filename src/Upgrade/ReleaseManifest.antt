-- ===== src/Upgrade/ReleaseManifest.antt =====
-- internal/upgrade/release_manifest.go
use upgrade_controller.Prelude.{
  String, ◌++◌, some, [], ◌∷◌, ◌==◌, Dict, dots_to_dashes, if◌then◌else◌,
}
use upgrade_controller.Errors.{Result, ok, err, message}
use upgrade_controller.Kube.{Job, VolumeMount, object_meta}

pub record ContainerImage : Type 0 where
  pub name : String
  pub version : String

-- `ContainerImage.String`
unfoldable pub image_string : ContainerImage → String
image_string image = image.name ++ ":" ++ image.version

abbrev release_manifest_path : String
release_manifest_path = "/release/manifest.yaml"

abbrev volume_mount : VolumeMount
volume_mount = record { name = "release"; mount_path = "/release" }

unfoldable pub workload_name : String → String
workload_name version = "apply-release-manifest-" ++ dots_to_dashes version

-- the job that is returned behind the two checks
pub install_job : ContainerImage → ContainerImage → String → String → Dict String → Job
install_job release_manifest kubectl service_account namespace labels =
    let name = workload_name release_manifest.version in
    record {
      type_meta = record { kind = "Job"; api_version = "batch/v1" };
      metadata = object_meta name namespace labels;
      template = record {
        name = name;
        namespace = namespace;
        init_containers =
            record {
              name = "init-" ++ name;
              image = image_string release_manifest;
              command = "cp" ∷ "release_manifest.yaml" ∷ release_manifest_path ∷ [];
              args = [];
              volume_mounts = volume_mount ∷ [];
            }
            ∷ [];
        containers =
            record {
              name = name;
              image = image_string kubectl;
              command = [];
              args = "apply" ∷ "-f" ∷ release_manifest_path ∷ [];
              volume_mounts = volume_mount ∷ [];
            }
            ∷ [];
        empty_dir_volumes = volume_mount.name ∷ [];
        restart_policy = "OnFailure";
        service_account_name = service_account;
      };
      ttl_seconds_after_finished = some 0;
      conditions = [];
    }

unfoldable pub release_manifest_install_job :
    ContainerImage → ContainerImage → String → String → Dict String → Result Job
unfolding install_job
release_manifest_install_job release_manifest kubectl service_account namespace labels =
    if release_manifest.name == ""
    then err (message "release manifest image is empty")
    else if release_manifest.version == ""
    then err (message "release manifest version is empty")
    else ok (install_job release_manifest kubectl service_account namespace labels)
