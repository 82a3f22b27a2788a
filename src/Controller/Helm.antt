-- ===== src/Controller/Helm.antt =====
-- `reconcileHelmChart` of reconcile_helm.go
pub mod Runs
pub mod Success
pub mod Truth
use upgrade_controller.Prelude.{
  String, ◌++◌, Bool, true, false, List, [], ◌∷◌, is_empty, if◌then◌else◌,
}
use upgrade_controller.Api.UpgradePlan.{get_chart_condition_type}
use upgrade_controller.Api.ReleaseManifest.{HelmChart, fields, dependency_charts, addon_charts}
use upgrade_controller.Upgrade.Helm.{
  HelmChartState, unknown, not_installed, version_already_installed, in_progress, failed, succeeded,
  formatted_message,
}
use upgrade_controller.Controller.Env.{Env}
use upgrade_controller.Controller.Charts.{upgrade_helm_chart}
use upgrade_controller.Controller.Conditions.{
  evaluate_helm_chart_state, set_failed_condition, set_in_progress_condition,
}
use upgrade_controller.Controller.Effects.{
  Eff, CtrlResult, no_requeue, requeue_if, pure, eventf, change_plan, ◌>>=◌, ◌>>◌,
}

-- `state != ChartStateSucceeded && state != ChartStateVersionAlreadyInstalled` is its negation.
abbrev pub is_done : HelmChartState → Bool
is_done succeeded = true
is_done version_already_installed = true
is_done _ = false

module _ (e : Env) (type : String) where
  open e use {World}

  -- the condition of a chart's state, and the result that goes with it
  unfoldable pub set_state : HelmChartState → String → Eff World CtrlResult
  set_state state release_name = do
    change_plan λ p.
        (evaluate_helm_chart_state e.conditions state).0 p type
          (formatted_message state release_name)
    pure (requeue_if (evaluate_helm_chart_state e.conditions state).1)

  -- the loop over the dependency charts, and what runs behind it
  unfoldable pub upgrade_dependencies : List HelmChart → Eff World CtrlResult → Eff World CtrlResult
  upgrade_dependencies [] core = core
  upgrade_dependencies (dep ∷ rest) core = do
    dep_state ← upgrade_helm_chart e (fields dep)
    if is_done dep_state
        then upgrade_dependencies rest core
        else set_state dep_state (fields dep).release_name

  -- the event of an add-on chart that is done
  unfoldable pub addon_event : String → String → HelmChartState → Eff World (Unit {0})
  addon_event core addon failed = eventf "Warning" type (
      "'" ++ core ++ "' upgraded successfully, but add-on component '" ++ addon
      ++ "' failed to upgrade")
  addon_event core addon not_installed =
      eventf "Normal" type
        ("'" ++ addon ++ "' add-on component upgrade skipped as it is missing in the cluster")
  addon_event core addon succeeded =
      eventf "Normal" type ("'" ++ addon ++ "' add-on component successfully upgraded")
  addon_event core addon _ = pure tt

  -- The `switch` on an add-on's state; `rest` is the next round of the loop.
  unfoldable pub addon_step :
      String → String → Eff World CtrlResult → HelmChartState → Eff World CtrlResult
  addon_step core addon rest in_progress = do
    change_plan
        λ p. set_in_progress_condition e.conditions p type (formatted_message in_progress addon)
    pure (requeue_if true)
  addon_step core addon rest unknown = pure no_requeue
  addon_step core addon rest state = do addon_event core addon state; rest

  unfoldable pub upgrade_addons :
      String → List HelmChart → Eff World CtrlResult → Eff World CtrlResult
  upgrade_addons core [] finish = finish
  upgrade_addons core (addon ∷ rest) finish = do
    addon_state ← upgrade_helm_chart e (fields addon)
    addon_step core (fields addon).release_name (upgrade_addons core rest finish) addon_state

  -- behind the core chart's upgrade, by its state
  unfoldable pub reconcile_core_state : HelmChart → HelmChartState → Eff World CtrlResult
  reconcile_core_state chart not_installed =
      if is_empty (dependency_charts chart)
      then set_state not_installed (fields chart).release_name
      else (change_plan (λ p. set_failed_condition e.conditions p type (
            "'"
            ++ (fields chart).release_name
            ++ "' core chart is missing, but dependency charts are present"))
          >> pure (requeue_if true))
  reconcile_core_state chart state =
      if is_done state
      then upgrade_addons (fields chart).release_name (addon_charts chart)
          (set_state state (fields chart).release_name)
      else set_state state (fields chart).release_name

  unfoldable pub reconcile_core : HelmChart → Eff World CtrlResult
  reconcile_core chart = do
    core_state ← upgrade_helm_chart e (fields chart)
    reconcile_core_state chart core_state

unfoldable pub reconcile_helm_chart : (e : Env) → HelmChart → Eff e.World CtrlResult
reconcile_helm_chart e chart =
    let type = get_chart_condition_type (fields chart).pretty_name in
    upgrade_dependencies e type (dependency_charts chart) (reconcile_core e type chart)
