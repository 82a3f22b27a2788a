-- ===== src/Tests/Manifests.antt =====
-- The release manifest of the sample plan.
use upgrade_controller.Prelude.{◌≡◌, ◌≢◌, ◌↔◌, ◌⊎◌, refl, [], ◌∷◌, All, String, Dict, lookup, none}
use upgrade_controller.Prelude as P
use upgrade_controller.Errors.{ok, err, panic, release_manifest_not_found}
use upgrade_controller.Kube.{Job, job, object_meta}
use upgrade_controller.Api.ReleaseManifest.{ReleaseManifest, arch_type_x86, supported_architectures}
use upgrade_controller.Api.ReleaseManifest.Architectures.{
  IsKnown, IsNamed, supported_architectures_lem,
}
use upgrade_controller.Upgrade.Base.{plan_identifier_labels}
use upgrade_controller.Upgrade.ReleaseManifest.{install_job, release_manifest_install_job}
use upgrade_controller.Controller.ReleaseManifest.{find_manifest, create_release_manifest}
use upgrade_controller.Controller.ReleaseManifest.Attempts.{Tried, create_release_manifest-Tried}
use upgrade_controller.Tests.Cluster.{sample_env, sample_env-RetryLaws}
use upgrade_controller.Controller.ReleaseManifest.Found.{IsFirstOf, find_manifest_iff}
use upgrade_controller.Tests.Samples.{sample_cluster, sample_release, sample_plan, state_of}

abbrev stored : ReleaseManifest
stored = record { metadata = object_meta "release" "default" []; spec = sample_release }

find_manifest_iff_example :
    ((find_manifest "3.1.0" sample_cluster.manifests ≡ ok stored)
      ↔ IsFirstOf "3.1.0" stored sample_cluster.manifests)
    × ((find_manifest "3.1.0" sample_cluster.manifests ≡ err release_manifest_not_found)
        ↔ All (λ other. other.spec.release_version ≢ "3.1.0") sample_cluster.manifests)
find_manifest_iff_example = find_manifest_iff "3.1.0" stored sample_cluster.manifests

supported_architectures_lem_example :
    (All IsKnown (arch_type_x86 ∷ [])
      × (set : Dict (Unit {0})) × (supported_architectures (arch_type_x86 ∷ []) ≡ ok set)
      × ((text : String) → (lookup text set ≢ none) ↔ IsNamed text (arch_type_x86 ∷ [])))
    ⊎ ((¬ All IsKnown (arch_type_x86 ∷ []))
        × (text : String) × (supported_architectures (arch_type_x86 ∷ []) ≡ panic text))
supported_architectures_lem_example = supported_architectures_lem (arch_type_x86 ∷ [])

-- the job for the sample plan
abbrev install : Job
install =
    install_job (record { name = "registry.example/release-manifest"; version = "3.1.0" })
      sample_env.kubectl sample_env.service_account "default"
      (plan_identifier_labels "upgrade" "default")

create_release_manifest-Tried_example :
    Tried sample_env
      (job install)
      5
      (state_of sample_plan)
      (create_release_manifest sample_env (state_of sample_plan)).1
unfolding P.cut_prefix P.trim_prefix release_manifest_install_job
create_release_manifest-Tried_example =
    create_release_manifest-Tried sample_env sample_env-RetryLaws (state_of sample_plan) install
      refl
