-- ===== src/Controller/Routing/Normal.antt =====
-- One pass of `reconcileNormal` leads back to its plan.
use upgrade_controller.Prelude.{String, ◌≡◌, ◌≢◌, refl, List, [], Option, none, some, All, nat_eq}
use upgrade_controller.Errors.{Result, ok, err, panic, is_release_manifest_not_found}
use upgrade_controller.Kube.{ObjectMeta, Node, job}
use upgrade_controller.Api.UpgradePlan.{
  operating_system_upgraded_condition, kubernetes_upgraded_condition,
}
use upgrade_controller.Api.ReleaseManifest as Manifest
use upgrade_controller.Api.ReleaseManifest.{HelmChart, ReleaseManifestSpec, fields}
use upgrade_controller.Controller.Env.{Env}
use upgrade_controller.Controller.Effects.{State}
use upgrade_controller.Controller.Effects.Keeps.{
  Keeps, Keeps-pure, Keeps-lift, Keeps-raise, Keeps-ask, Keeps-if, Keeps-bind, Keeps-then,
  Keeps-lift-bind, RetryLaws, Keeps-retry,
}
use upgrade_controller.Controller.Conditions.{set_condition}
use upgrade_controller.Controller.Reconcile.{
  fresh_suffix, start_generation, observe_generation, next_chart, reconcile_chart, reconcile_stage,
  reconcile_supported, reconcile_release, reconcile_with, reconcile_normal,
}
use upgrade_controller.Controller.Reconcile.Generation.{charts_pending-metadata}
use upgrade_controller.Controller.ReleaseManifest.{
  retrieve_release_manifest, create_release_manifest,
}
use upgrade_controller.Controller.Routing.{
  Routes, Routed, create_object-Routed, change_plan-Routed, the_plan-Routed,
}
use upgrade_controller.Controller.Routing.Labels.{job-Placed}
use upgrade_controller.Controller.Routing.Stages.{os-Routed, kubernetes-Routed}
use upgrade_controller.Controller.Routing.Charts.{helm_chart-Routed}

module _ (e : Env) (m : ObjectMeta) (named : m.name ≢ "") where
  suffix-Routed : Keeps (Routed m) (fresh_suffix e)
  unfolding fresh_suffix
  suffix-Routed = record { at = λ s h. record { kept = h.kept; routed = h.routed } }

  generation-Routed : (helm : List HelmChart) → Keeps (Routed m) (observe_generation e helm)
  unfolding observe_generation start_generation
  generation-Routed helm = Keeps-bind _ _ suffix-Routed λ suffix.
      the_plan-Routed e m _ λ owner same. Keeps-if _ _ _ (Keeps-pure _) (
        Keeps-then _ _ (change_plan-Routed e m _ (λ p. charts_pending-metadata e helm _))
          (Keeps-pure _))

  next-Routed :
      (version : String) (next : Option HelmChart)
      → Keeps (Routed m) (reconcile_chart e version next)
  next-Routed version none = Keeps-then _ _ (change_plan-Routed e m _ (λ p. refl)) (Keeps-pure _)
  next-Routed version (some chart) = helm_chart-Routed e m named chart

  stage-Routed :
      (release : ReleaseManifestSpec) (nodes : List Node)
      → Keeps (Routed m) (reconcile_stage e release nodes)
  unfolding reconcile_stage
  stage-Routed release nodes = record {
    at = λ s h.
        let done = e.conditions.is_status_condition_true s.plan.status.conditions in
        (Keeps-if (done operating_system_upgraded_condition) _ _
            (Keeps-if (done kubernetes_upgraded_condition) _ _
              (next-Routed release.release_version (next_chart e release.components.helm s.plan))
              (kubernetes-Routed e m named release.components.kubernetes nodes))
            (os-Routed e m named release.release_version release.components.operating_system
              nodes)).at
          s h;
  }

  supported-Routed :
      (release : ReleaseManifestSpec) (nodes : List Node)
      → Keeps (Routed m) (reconcile_supported e release nodes)
  unfolding reconcile_supported
  supported-Routed release nodes = record {
    at = λ s h.
        (Keeps-if (nat_eq s.plan.status.observed_generation s.plan.metadata.generation) _ _
            (stage-Routed release nodes) (generation-Routed release.components.helm)).at
          s h;
  }

  release-Routed : (release : ReleaseManifestSpec) → Keeps (Routed m) (reconcile_release e release)
  unfolding reconcile_release set_condition
  release-Routed release = Keeps-bind _ _ (Keeps-ask _) λ nodes. Keeps-lift-bind _ _ λ supported q.
      Keeps-if _ _ _ (supported-Routed release nodes)
        (Keeps-then _ _ (change_plan-Routed e m _ (λ p. refl)) (Keeps-pure _))

  module _ (retry : RetryLaws e) where
    install-Routed : Keeps (Routed m) (create_release_manifest e)
    unfolding create_release_manifest
    install-Routed = the_plan-Routed e m _ λ owner same. Keeps-lift-bind _ _ λ install q.
        Keeps-retry e retry 4 _ (
          create_object-Routed e m (job install) (
            rw (← same) (job-Placed owner (rw same named) _ e.kubectl e.service_account install q)))

    with-Routed :
        (found : Result Manifest.ReleaseManifest) → Keeps (Routed m) (reconcile_with e found)
    unfolding reconcile_with
    with-Routed (ok manifest) = release-Routed manifest.spec
    with-Routed (err error) =
        Keeps-if (is_release_manifest_not_found error) _ _
          (Keeps-then _ _ install-Routed (Keeps-pure _)) (Keeps-raise _)
    with-Routed (panic p) = Keeps-lift _

    retrieve-Routed : Keeps (Routed m) (retrieve_release_manifest e)
    unfolding retrieve_release_manifest
    retrieve-Routed =
        the_plan-Routed e m _ λ owner same. Keeps-bind _ _ (Keeps-ask _) (λ manifests. Keeps-lift _)

    pub normal-Routed : Keeps (Routed m) (reconcile_normal e)
    unfolding reconcile_normal
    normal-Routed = record {
      at = λ s h.
          let r = retrieve_release_manifest e s in
          (with-Routed r.0).at r.1 (retrieve-Routed.at s h);
    }

-- A pass of `reconcileNormal`, whether it returns, fails or panics, creates and updates only
-- objects whose labels lead the watches to exactly the plan that it reconciles, creates them only
-- in the plan's namespace, kube-system or cattle-system, deletes nothing, and sends no update of
-- the plan or its status. The plan's name is not empty, and `retry.OnError` makes at least one
-- attempt and at most as many as it is given.
pub reconcile_normal-Routed :
    (e : Env) (retry : RetryLaws e) (s : State e.World)
    → s.plan.metadata.name ≢ ""
    → s.trace ≡ []
    → All (Routes s.plan.metadata) (reconcile_normal e s).1.trace
reconcile_normal-Routed e retry s named start =
    ((normal-Routed e s.plan.metadata named retry).at s
      (record { kept = refl; routed = rw start tt })).routed
