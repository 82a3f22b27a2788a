-- ===== src/Tests/Support.antt =====
-- A release without supported architectures.
use upgrade_controller.Prelude.{◌≡◌, ◌⊎◌, refl, []}
use upgrade_controller.Errors.{ok}
use upgrade_controller.Api.ReleaseManifest.{supported_architectures, add_architectures}
use upgrade_controller.Controller.Effects.{no_requeue}
use upgrade_controller.Controller.Reconcile.{reconcile_release, reconcile_supported}
use upgrade_controller.Controller.Reconcile.Support.{
  AllSupported, Blocked, reconcile_release_support,
}
use upgrade_controller.Tests.Library.{sample_conditions-ConditionLaws}
use upgrade_controller.Tests.Cluster.{sample_env}
use upgrade_controller.Tests.Samples.{sample_plan, sample_release, sample_nodes, state_of}

reconcile_release_support_example :
    (AllSupported [] sample_nodes
      × (reconcile_release sample_env sample_release (state_of sample_plan)
          ≡ reconcile_supported sample_env sample_release sample_nodes (state_of sample_plan)))
    ⊎ ((¬ AllSupported [] sample_nodes)
        × ((reconcile_release sample_env sample_release (state_of sample_plan)).0 ≡ ok no_requeue)
        × Blocked sample_env
            (state_of sample_plan)
            (reconcile_release sample_env sample_release (state_of sample_plan)).1)
unfolding supported_architectures add_architectures
reconcile_release_support_example =
    reconcile_release_support sample_env sample_conditions-ConditionLaws sample_release
      (state_of sample_plan) sample_nodes [] refl refl
