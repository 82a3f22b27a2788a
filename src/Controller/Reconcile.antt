-- ===== src/Controller/Reconcile.antt =====
-- `reconcileDelete` and `reconcileNormal` of upgradeplan_controller.go
pub mod Loop
pub mod Deletion
pub mod Passes
pub mod Admission
pub mod Release
pub mod Recorded
pub mod Generation
pub mod Stages
pub mod Support
use upgrade_controller.Prelude.{
  String, ◌++◌, Bool, true, Option, none, some, List, [], ◌∷◌, ◌==◌, is_empty, nat_eq, show_list,
  if◌then◌else◌,
}
use upgrade_controller.Errors.{
  Result, ok, err, panic, Error, is_not_found, is_upgrade_in_progress,
  is_release_manifest_not_found, upgrade_in_progress, wrap, in_context, join_errors,
}
use upgrade_controller.Kube.{
  NamespacedName, ListOptions, Node, Plan, Secret, condition_true, is_zero,
}
use upgrade_controller.Api.UpgradePlan.{
  UpgradePlan, upgrade_plan_finalizer, validation_failed_condition, unsupported_architecture_reason,
  operating_system_upgraded_condition, kubernetes_upgraded_condition, get_chart_condition_type,
}
use upgrade_controller.Api.ReleaseManifest as Manifest
use upgrade_controller.Api.ReleaseManifest.{
  HelmChart, ReleaseManifestSpec, fields, supported_architectures,
}
use upgrade_controller.Upgrade.Base.{
  plan_name_label, plan_namespace_label, suc_namespace, random_byte_num, generate_suffix,
}
use upgrade_controller.Controller.Env.{Env}
use upgrade_controller.Controller.Effects.{
  Call, deleted_plan, deleted_secret, updated_plan, updated_status, Eff, State, CtrlResult,
  no_requeue, requeue_if, pure, lift, ask, raise, within, act, the_plan, change_plan, ◌>>=◌, ◌>>◌,
}
use upgrade_controller.Controller.Conditions.{
  set_condition, set_pending_condition, upgrade_pending_message, is_helm_upgrade_finished,
}
use upgrade_controller.Controller.Nodes.{find_unsupported_nodes}
use upgrade_controller.Controller.Os.{reconcile_os}
use upgrade_controller.Controller.Kubernetes.{reconcile_kubernetes}
use upgrade_controller.Controller.Helm.{reconcile_helm_chart}
use upgrade_controller.Controller.ReleaseManifest.{
  retrieve_release_manifest, create_release_manifest,
}

abbrev pub suc_list_options : UpgradePlan → ListOptions
suc_list_options owner = record {
  namespace = suc_namespace;
  match_labels =
      (plan_name_label, owner.metadata.name)
      ∷ (plan_namespace_label, owner.metadata.namespace)
      ∷ [];
}

-- `errors.Is(err, errReleaseManifestNotFound)` decides between the two returns.
abbrev pub manifest_missing : Error → Bool
manifest_missing = is_release_manifest_not_found

module _ (e : Env) where
  open e use {World}

  -- the loop over the SUC plans
  unfoldable pub delete_plans : List Plan → Eff World (Unit {0})
  delete_plans [] = pure tt
  delete_plans (p ∷ rest) =
      if is_empty p.applying
      then (within ("deleting SUC plan " ++ p.metadata.name)
            (act (deleted_plan p) (e.delete_plan p))
          >> delete_plans rest)
      else raise upgrade_in_progress

  -- the loop over the secrets
  unfoldable pub delete_secrets : List Secret → Eff World (Unit {0})
  delete_secrets [] = pure tt
  delete_secrets (s ∷ rest) =
      within ("deleting SUC secret " ++ s.metadata.name)
        (act (deleted_secret s) (e.delete_secret s))
      >> delete_secrets rest

  unfoldable pub reconcile_delete : Eff World (Unit {0})
  unfolding delete_plans delete_secrets
  reconcile_delete = do
    owner ← the_plan
    plans ← ask (λ w. in_context "retrieving SUC plans" (e.list_plans (suc_list_options owner) w))
    delete_plans plans
    secrets ←
        ask (λ w. in_context "retrieving SUC secrets" (e.list_secrets (suc_list_options owner) w))
    delete_secrets secrets

  -- the pending conditions of the charts
  unfoldable pub set_charts_pending : List HelmChart → UpgradePlan → UpgradePlan
  unfolding set_pending_condition
  set_charts_pending [] plan = plan
  set_charts_pending (chart ∷ rest) plan = set_charts_pending rest (
      set_pending_condition e.conditions plan (get_chart_condition_type (fields chart).pretty_name)
        (upgrade_pending_message (fields chart).pretty_name))

  -- a new generation with its suffix
  unfoldable pub start_generation : List HelmChart → String → UpgradePlan → UpgradePlan
  unfolding set_charts_pending
  start_generation helm suffix plan =
      let started = record plan {
        status = record (plan.status) {
          suc_name_suffix = suffix;
          observed_generation = plan.metadata.generation;
        };
      } in
      let os_pending =
        set_pending_condition e.conditions started operating_system_upgraded_condition
          (upgrade_pending_message "OS") in
      let k8s_pending =
        set_pending_condition e.conditions os_pending kubernetes_upgraded_condition
          (upgrade_pending_message "Kubernetes") in
      set_charts_pending helm k8s_pending

  -- `rand.Read` under `GenerateSuffix`
  unfoldable pub fresh_suffix : Eff World String
  fresh_suffix s =
      let (bytes, w) = e.read_random random_byte_num s.world in
      (in_context "generating suffix" (generate_suffix bytes), record s { world = w })

  -- Where the suffix is the current one, the plan is reconciled again.
  unfoldable pub observe_generation : List HelmChart → Eff World CtrlResult
  observe_generation helm = do
    suffix ← fresh_suffix
    owner ← the_plan
    if suffix == owner.status.suc_name_suffix
        then pure (requeue_if true)
        else (change_plan (start_generation helm suffix) >> pure (requeue_if true))

  -- the loop over the charts, up to the first that is not finished
  unfoldable pub next_chart : List HelmChart → UpgradePlan → Option HelmChart
  unfolding is_helm_upgrade_finished
  next_chart [] plan = none
  next_chart (chart ∷ rest) plan =
      let later = next_chart rest plan in
      if is_helm_upgrade_finished e.conditions plan
        (get_chart_condition_type (fields chart).pretty_name)
      then later
      else some chart

  abbrev pub reconcile_chart : String → Option HelmChart → Eff World CtrlResult
  reconcile_chart release_version none = do
    change_plan λ p. record p {
      status = record (p.status) { last_successful_release_version = release_version };
    }
    pure no_requeue
  reconcile_chart release_version (some chart) = reconcile_helm_chart e chart

  -- the `switch` and the loop over the charts
  unfoldable pub reconcile_stage : ReleaseManifestSpec → List Node → Eff World CtrlResult
  unfolding next_chart
  reconcile_stage release node_list s =
      let done = e.conditions.is_status_condition_true s.plan.status.conditions in
      (if done operating_system_upgraded_condition
          then (if done kubernetes_upgraded_condition
              then reconcile_chart release.release_version
                  (next_chart release.components.helm s.plan)
              else reconcile_kubernetes e release.components.kubernetes node_list)
          else reconcile_os e release.release_version release.components.operating_system node_list)
        s

  unfoldable pub reconcile_supported : ReleaseManifestSpec → List Node → Eff World CtrlResult
  reconcile_supported release node_list s =
      (if nat_eq s.plan.status.observed_generation s.plan.metadata.generation
          then reconcile_stage release node_list
          else observe_generation release.components.helm)
        s

  unfoldable pub reconcile_release : ReleaseManifestSpec → Eff World CtrlResult
  unfolding set_condition
  reconcile_release release = do
    node_list ← ask (λ w. in_context "listing nodes" (e.list_nodes w))
    supported ← lift (supported_architectures release.components.operating_system.supported_archs)
    let unsupported = find_unsupported_nodes node_list supported
    if is_empty unsupported then reconcile_supported release node_list else do
      change_plan λ p.
          set_condition e.conditions condition_true unsupported_architecture_reason p
            validation_failed_condition
            ("One or more cluster nodes are running on unsupported architecture: "
              ++ show_list unsupported)
      pure no_requeue

  -- by what `retrieveReleaseManifest` answered
  unfoldable pub reconcile_with : Result Manifest.ReleaseManifest → Eff World CtrlResult
  reconcile_with (ok manifest) = reconcile_release manifest.spec
  reconcile_with (err error) =
      if manifest_missing error
      then (create_release_manifest e >> pure no_requeue)
      else raise (wrap "retrieving release manifest" error)
  reconcile_with (panic p) = lift (panic p)

  unfoldable pub reconcile_normal : Eff World CtrlResult
  unfolding retrieve_release_manifest
  reconcile_normal s = let (found, s') = retrieve_release_manifest e s in reconcile_with found s'
