-- ===== src/Tests/Passes.antt =====
-- Passes of `Reconcile` over plans of the sample cluster.
use upgrade_controller.Prelude.{String, ◌≡◌, refl, All, neq_of_test}
use upgrade_controller.Errors.{ok}
use upgrade_controller.Api.Webhook.{Versions, equal, upgrade_plan, validate_update}
use upgrade_controller.Controller.Routing.{Routes}
use upgrade_controller.Controller.Routing.Normal.{reconcile_normal-Routed}
use upgrade_controller.Controller.Reconcile.{reconcile_normal}
use upgrade_controller.Controller.Reconcile.Loop.{set_finalizers, reconcile_plan}
use upgrade_controller.Controller.Reconcile.Admission.{release_admitted}
use upgrade_controller.Controller.Reconcile.Passes.{DeletionPass, reconcile_plan-DeletionPass}
use upgrade_controller.Tests.Library.{
  contains_finalizer, remove_finalizer, sample_finalizers-FinalizerLaws,
}
use upgrade_controller.Tests.Cluster.{sample_env, sample_env-RetryLaws}
use upgrade_controller.Tests.Samples as S
use upgrade_controller.Tests.Samples.{sample_plan, state_of}

reconcile_normal-Routed_example :
    All (Routes sample_plan.metadata) (reconcile_normal sample_env (state_of sample_plan)).1.trace
reconcile_normal-Routed_example =
    reconcile_normal-Routed sample_env sample_env-RetryLaws (state_of sample_plan)
      (neq_of_test "upgrade" "" refl) refl

reconcile_plan-DeletionPass_example :
    DeletionPass sample_env
      (state_of S.deleted_plan)
      (reconcile_plan sample_env (state_of S.deleted_plan)).0
      (reconcile_plan sample_env (state_of S.deleted_plan)).1.trace
reconcile_plan-DeletionPass_example =
    reconcile_plan-DeletionPass sample_env (state_of S.deleted_plan) refl refl

-- versions by their texts, of which none is greater than another
abbrev text_versions : Versions
text_versions = record { Version = String; parse_semantic = λ s. ok s; compare = λ v s. ok equal }

release_admitted_example :
    validate_update text_versions
      (upgrade_plan S.deleted_plan)
      (upgrade_plan (set_finalizers sample_env remove_finalizer S.deleted_plan))
    ≡ ok tt
unfolding contains_finalizer
release_admitted_example =
    release_admitted text_versions sample_env sample_finalizers-FinalizerLaws S.deleted_plan refl
      refl
