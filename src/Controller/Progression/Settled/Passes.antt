-- ===== src/Controller/Progression/Settled/Passes.antt =====
-- A pass over a cluster in which everything of the release is done.
use upgrade_controller.Prelude.{
  suc, String, ◌≡◌, ◌≢◌, refl, ap, ◌∙◌, Bool, true, List, [], ◌∷◌, All, is_empty, Dict, arith,
  eq_iff,
}
use upgrade_controller.Errors.{Result, ok}
use upgrade_controller.Kube.{Node, condition_true}
use upgrade_controller.Api.UpgradePlan.{UpgradePlan, upgrade_succeeded}
use upgrade_controller.Api.ReleaseManifest.{HelmChart, ReleaseManifestSpec, supported_architectures}
use upgrade_controller.Api.ReleaseManifest as Manifest
use upgrade_controller.Controller.ReleaseManifest.{find_manifest, retrieve_release_manifest}
use upgrade_controller.Controller.Env.{Env, ConditionOps}
use upgrade_controller.Controller.Effects.{State, CtrlResult, no_requeue, requeue_if, effects}
use upgrade_controller.Controller.Conditions.{set_successful_condition, is_helm_upgrade_finished}
use upgrade_controller.Controller.Conditions.Laws.{ConditionLaws, has_true, has_true-set_condition}
use upgrade_controller.Controller.Nodes.{find_unsupported_nodes}
use upgrade_controller.Controller.Reconcile.{
  reconcile_normal, reconcile_with, reconcile_supported, reconcile_release,
}
use upgrade_controller.Controller.Reconcile.Stages.{
  IsNext, StagePass, chart_finished, reconcile_stage-StagePass,
}
use upgrade_controller.Controller.Helm.{reconcile_helm_chart}
use upgrade_controller.Controller.Os.{os_stage}
use upgrade_controller.Controller.Kubernetes.{k8s_stage}
use upgrade_controller.Controller.Progression.{todo, Advance-todo}
use upgrade_controller.Controller.Progression.Flags.{
  chart_flags, stage_flags, TypesDistinct, SameOwner,
}
use upgrade_controller.Controller.Progression.Refinement.{
  chart-differs, heads-differ, tails, is_observed, Advanced, stage-Advanced,
}
use upgrade_controller.Controller.Progression.Settled.{
  OsDone, KubernetesDone, OsDone-SameOwner, KubernetesDone-SameOwner, succeeded_state,
  reconcile_os-OsDone, reconcile_kubernetes-KubernetesDone,
}
use upgrade_controller.Controller.Progression.Settled.Done.{ChartDone}
use upgrade_controller.Controller.Progression.Settled.Charts.{reconcile_helm_chart-ChartPass}

-- Everything of the release is done in the cluster, for the suffix of the plan's generation, which
-- is observed.
pub record Settled (e : Env) (release : ReleaseManifestSpec) (w : e.World) (p : UpgradePlan)
    : Type 0 where
  pub observed : is_observed p ≡ true
  -- the release manifest of the plan
  pub manifests : List Manifest.ReleaseManifest
  pub manifest : Manifest.ReleaseManifest
  pub manifests_listed : e.list_release_manifests p.metadata.namespace w ≡ ok manifests
  pub manifest_found : find_manifest p.spec.release_version manifests ≡ ok manifest
  pub manifest_spec : manifest.spec ≡ release
  pub nodes : List Node
  pub listed : e.list_nodes w ≡ ok nodes
  pub architectures : Dict (Unit {0})
  pub known :
      supported_architectures release.components.operating_system.supported_archs ≡ ok architectures
  pub all_supported : is_empty (find_unsupported_nodes nodes architectures) ≡ true
  pub os : OsDone e nodes w p release.release_version release.components.operating_system
  pub kubernetes : KubernetesDone e nodes w p release.components.kubernetes
  pub charts : All (ChartDone e w p.spec.release_version) release.components.helm

pub Settled-SameOwner :
    (e : Env) (release : ReleaseManifestSpec) (w : e.World) (p q : UpgradePlan)
    → SameOwner p q
    → is_observed q ≡ true
    → Settled e release w p
    → Settled e release w q
Settled-SameOwner e release w p q same observed settled = record {
  observed = observed;
  manifests = settled.manifests;
  manifest = settled.manifest;
  manifests_listed = rw same.metadata_lem settled.manifests_listed;
  manifest_found = rw same.spec_lem settled.manifest_found;
  manifest_spec = settled.manifest_spec;
  nodes = settled.nodes;
  listed = settled.listed;
  architectures = settled.architectures;
  known = settled.known;
  all_supported = settled.all_supported;
  os = OsDone-SameOwner e settled.nodes w _ _ same settled.os;
  kubernetes = KubernetesDone-SameOwner e settled.nodes w _ same settled.kubernetes;
  charts = rw same.spec_lem settled.charts;
}

-- the result of a pass over a settled cluster
pub data SettledPass (e : Env) (release : ReleaseManifestSpec) (s : State e.World)
    : Result CtrlResult × State e.World → Type 0 where
  -- one more is finished, and the next pass is asked for,
  stepped :
      {after : State e.World}
      → after.world ≡ s.world
      → SameOwner s.plan after.plan
      → is_observed after.plan ≡ true
      → todo (stage_flags e.conditions release.components.helm s.plan)
        ≡ suc (todo (stage_flags e.conditions release.components.helm after.plan))
      → SettledPass e release s (ok (requeue_if true), after)
  -- or all is finished, and the release is recorded
  recorded :
      {after : State e.World}
      → after.world ≡ s.world
      → after.plan.status.last_successful_release_version ≡ release.release_version
      → todo (stage_flags e.conditions release.components.helm after.plan) ≡ 0
      → SettledPass e release s (ok no_requeue, after)

-- a property of all charts, of the next one
of_next :
    (P : HelmChart → Type 0) (ops : ConditionOps) (p : UpgradePlan) (next : HelmChart)
    (helm : List HelmChart)
    → IsNext ops p next helm
    → All P helm
    → P next
of_next P ops p next [] nothing all_of = elim nothing [ ]
of_next P ops p next (chart ∷ rest) (IsNext.here opened) (first, others) = first
of_next P ops p next (chart ∷ rest) (IsNext.later done behind) (first, others) =
    of_next P ops p next rest behind others

chart_flags-todo :
    (ops : ConditionOps) (p : UpgradePlan) (helm : List HelmChart)
    → All (λ c. chart_finished ops p c ≡ true) helm
    → todo (chart_flags ops p helm) ≡ 0
chart_flags-todo ops p [] h = refl
chart_flags-todo ops p (chart ∷ rest) (first, h) = rw first (chart_flags-todo ops p rest h)

module _ (e : Env) (laws : ConditionLaws e.conditions) (release : ReleaseManifestSpec)
    (distinct : TypesDistinct release.components.helm) where
  abbrev pub flags_of : UpgradePlan → List Bool
  flags_of p = stage_flags e.conditions release.components.helm p

  stepped-SettledPass :
      (s : State e.World) (r : Result CtrlResult × State e.World)
      → is_observed s.plan ≡ true
      → r.0 ≡ ok (requeue_if true)
      → r.1.world ≡ s.world
      → Advanced e laws release distinct s.plan r.1.plan
      → flags_of s.plan ≢ flags_of r.1.plan
      → SettledPass e release s r
  stepped-SettledPass s (answer, after) observed requeued same_world a changed = rw requeued (
      SettledPass.stepped same_world a.owner (a.observed ∙ observed)
        (Advance-todo _ _ a.advance changed))

  -- The stage's condition is true now.
  now_true :
      (type : String) (s : State e.World)
      → has_true e.conditions (succeeded_state e type s).plan type ≡ true
  unfolding set_successful_condition
  now_true type s =
      has_true-set_condition e.conditions laws s.plan condition_true upgrade_succeeded type _ type
      ∙ ground (arith, eq_iff type type)

  stage-SettledPass :
      (s : State e.World) (settled : Settled e release s.world s.plan)
      (r : Result CtrlResult × State e.World)
      → StagePass e release settled.nodes s r
      → Advanced e laws release distinct s.plan r.1.plan
      → SettledPass e release s r
  unfolding is_helm_upgrade_finished
  stage-SettledPass s settled _ (StagePass.on_os no_os) a =
      let ran = reconcile_os-OsDone e settled.nodes s _ _ settled.os in
      stepped-SettledPass s _ settled.observed (ap (λ r. r.0) ran) (ap (λ r. r.1.world) ran) a (
        heads-differ no_os
          (ap (λ r. has_true e.conditions r.1.plan os_stage) ran ∙ now_true os_stage s))
  stage-SettledPass s settled _ (StagePass.on_kubernetes os no_k8s) a =
      let ran = reconcile_kubernetes-KubernetesDone e settled.nodes s _ settled.kubernetes in
      let differ =
        heads-differ no_k8s
          (ap (λ r. has_true e.conditions r.1.plan k8s_stage) ran ∙ now_true k8s_stage s) in
      stepped-SettledPass s _ settled.observed (ap (λ r. r.0) ran) (ap (λ r. r.1.world) ran) a
        (λ same. differ (tails same))
  stage-SettledPass s settled _ (StagePass.on_chart next os k8s is_next) a =
      let c = reconcile_helm_chart-ChartPass e laws next s (
        of_next (ChartDone e s.world s.plan.spec.release_version) e.conditions s.plan next _ is_next
          settled.charts) in
      let differ =
        chart-differs e.conditions s.plan (reconcile_helm_chart e next s).1.plan next _ is_next
          c.finished in
      stepped-SettledPass s _ settled.observed c.requeued c.same_world a
        (λ same. differ (tails (tails same)))
  stage-SettledPass s settled _ (StagePass.complete os k8s finished) a =
      SettledPass.recorded refl refl
        (rw (os, k8s) (chart_flags-todo e.conditions s.plan _ finished))

  release-SettledPass :
      (s : State e.World)
      → Settled e release s.world s.plan
      → SettledPass e release s (reconcile_release e release s)
  unfolding effects reconcile_release reconcile_supported
  release-SettledPass s settled =
      let staged = reconcile_stage-StagePass e release settled.nodes s in
      rw (settled.listed, settled.known, settled.all_supported, settled.observed)
        (stage-SettledPass s settled _ staged
          (stage-Advanced e laws release distinct settled.nodes s _ staged))

  -- `reconcileNormal` finds the manifest.
  pub normal-SettledPass :
      (s : State e.World)
      → Settled e release s.world s.plan
      → SettledPass e release s (reconcile_normal e s)
  unfolding effects reconcile_normal retrieve_release_manifest reconcile_with
  normal-SettledPass s settled =
      rw (settled.manifests_listed, settled.manifest_found, settled.manifest_spec)
        (release-SettledPass s settled)
