-- ===== src/Controller/ReleaseManifest.antt =====
-- release_manifest.go
pub mod Found
pub mod Attempts
use upgrade_controller.Prelude.{String, List, [], ◌∷◌, ◌==◌, trim_prefix, if◌then◌else◌}
use upgrade_controller.Errors.{Result, ok, err, in_context, release_manifest_not_found}
use upgrade_controller.Kube.{job}
use upgrade_controller.Api.UpgradePlan.{UpgradePlan}
use upgrade_controller.Api.ReleaseManifest as Manifest
use upgrade_controller.Upgrade.Base.{plan_identifier_labels}
use upgrade_controller.Upgrade.ReleaseManifest.{ContainerImage, release_manifest_install_job}
use upgrade_controller.Controller.Env.{Env}
use upgrade_controller.Controller.Effects.{Eff, State, lift, ask, the_plan, create_object, ◌>>=◌}

-- the loop over the manifests
unfoldable pub find_manifest :
    String → List Manifest.ReleaseManifest → Result Manifest.ReleaseManifest
find_manifest version [] = err release_manifest_not_found
find_manifest version (m ∷ rest) =
    let later = find_manifest version rest in
    if m.spec.release_version == version then ok m else later

module _ (e : Env) where
  open e use {World}

  unfoldable pub retrieve_release_manifest : Eff World Manifest.ReleaseManifest
  retrieve_release_manifest = do
    owner ← the_plan
    manifests ← ask λ w.
        in_context "listing release manifests in cluster"
          (e.list_release_manifests owner.metadata.namespace w)
    lift (find_manifest owner.spec.release_version manifests)

  abbrev pub manifest_image : UpgradePlan → ContainerImage
  manifest_image owner = record {
    name = e.release_manifest_image;
    version = trim_prefix owner.spec.release_version "v";
  }

  -- The creation has five attempts.
  unfoldable pub create_release_manifest : Eff World (Unit {0})
  create_release_manifest = do
    owner ← the_plan
    install ← lift (
        release_manifest_install_job (manifest_image owner) e.kubectl e.service_account
          owner.metadata.namespace
          (plan_identifier_labels owner.metadata.name owner.metadata.namespace))
    e.retry_on_error 5 (State World) (create_object e (job install))
