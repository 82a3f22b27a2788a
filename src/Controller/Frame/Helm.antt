-- ===== src/Controller/Frame/Helm.antt =====
-- A pass over a chart changes only the chart's condition in the plan.
use upgrade_controller.Prelude.{String, List, [], ◌∷◌, is_empty}
use upgrade_controller.Api.UpgradePlan.{UpgradePlan, get_chart_condition_type}
use upgrade_controller.Api.ReleaseManifest.{HelmChart, fields, dependency_charts, addon_charts}
use upgrade_controller.Upgrade.Helm.{
  HelmChartState, unknown, not_installed, version_already_installed, in_progress, failed, succeeded,
}
use upgrade_controller.Controller.Env.{Env}
use upgrade_controller.Controller.Conditions.{
  evaluate_helm_chart_state, set_skipped_condition, set_failed_condition, set_successful_condition,
  set_error_condition, set_in_progress_condition,
}
use upgrade_controller.Controller.Effects.{CtrlResult, Eff}
use upgrade_controller.Controller.Effects.Keeps.{
  Keeps, Keeps-pure, Keeps-if, Keeps-bind, Keeps-then,
}
use upgrade_controller.Controller.Helm.{
  is_done, set_state, upgrade_dependencies, addon_event, addon_step, upgrade_addons,
  reconcile_core_state, reconcile_core, reconcile_helm_chart,
}
use upgrade_controller.Controller.Frame.{OnPlan, ConditionFrame, change-OnPlan, eventf-OnPlan}
use upgrade_controller.Controller.Frame.Charts.{upgrade-OnPlan}

-- the event of an add-on
pub addon_event-OnPlan :
    (e : Env) {P : UpgradePlan → Type 0} (type core addon : String) (state : HelmChartState)
    → Keeps (OnPlan P) (addon_event e type core addon state)
unfolding addon_event
addon_event-OnPlan e type core addon failed = eventf-OnPlan _ _ _
addon_event-OnPlan e type core addon not_installed = eventf-OnPlan _ _ _
addon_event-OnPlan e type core addon succeeded = eventf-OnPlan _ _ _
addon_event-OnPlan e type core addon in_progress = Keeps-pure _
addon_event-OnPlan e type core addon unknown = Keeps-pure _
addon_event-OnPlan e type core addon version_already_installed = Keeps-pure _

module _ (e : Env) {P : UpgradePlan → Type 0} {type : String}
    (frame : ConditionFrame e.conditions type P) where
  setter-OnPlan :
      (state : HelmChartState) (text : String) (p : UpgradePlan)
      → P p
      → P ((evaluate_helm_chart_state e.conditions state).0 p type text)
  unfolding evaluate_helm_chart_state set_skipped_condition set_failed_condition
      set_successful_condition set_error_condition set_in_progress_condition
  setter-OnPlan unknown text p = frame.kept _ _ p text
  setter-OnPlan not_installed text p = frame.kept _ _ p text
  setter-OnPlan version_already_installed text p = frame.kept _ _ p text
  setter-OnPlan in_progress text p = frame.kept _ _ p text
  setter-OnPlan failed text p = frame.kept _ _ p text
  setter-OnPlan succeeded text p = frame.kept _ _ p text

  set_state-OnPlan :
      (state : HelmChartState) (name : String) → Keeps (OnPlan P) (set_state e type state name)
  unfolding set_state
  set_state-OnPlan state name =
      Keeps-then _ _ (change-OnPlan _ λ p. setter-OnPlan state _ p) (Keeps-pure _)

  dependencies-OnPlan :
      (deps : List HelmChart) (core : Eff e.World CtrlResult)
      → Keeps (OnPlan P) core
      → Keeps (OnPlan P) (upgrade_dependencies e type deps core)
  unfolding upgrade_dependencies
  dependencies-OnPlan [] core kc = kc
  dependencies-OnPlan (dep ∷ rest) core kc = Keeps-bind _ _ (upgrade-OnPlan e _) λ state.
      Keeps-if (is_done state) _ _ (dependencies-OnPlan rest core kc) (set_state-OnPlan state _)

  addon_step-OnPlan :
      (core addon : String) (rest : Eff e.World CtrlResult) (state : HelmChartState)
      → Keeps (OnPlan P) rest
      → Keeps (OnPlan P) (addon_step e type core addon rest state)
  unfolding addon_step set_in_progress_condition
  addon_step-OnPlan core addon rest in_progress kr =
      Keeps-then _ _ (change-OnPlan _ λ p. frame.kept _ _ p _) (Keeps-pure _)
  addon_step-OnPlan core addon rest unknown kr = Keeps-pure _
  addon_step-OnPlan core addon rest failed kr =
      Keeps-then _ _ (addon_event-OnPlan e type core addon failed) kr
  addon_step-OnPlan core addon rest not_installed kr =
      Keeps-then _ _ (addon_event-OnPlan e type core addon not_installed) kr
  addon_step-OnPlan core addon rest succeeded kr =
      Keeps-then _ _ (addon_event-OnPlan e type core addon succeeded) kr
  addon_step-OnPlan core addon rest version_already_installed kr =
      Keeps-then _ _ (addon_event-OnPlan e type core addon version_already_installed) kr

  addons-OnPlan :
      (core : String) (addons : List HelmChart) (end_of_loop : Eff e.World CtrlResult)
      → Keeps (OnPlan P) end_of_loop
      → Keeps (OnPlan P) (upgrade_addons e type core addons end_of_loop)
  unfolding upgrade_addons
  addons-OnPlan core [] end_of_loop ke = ke
  addons-OnPlan core (addon ∷ rest) end_of_loop ke =
      Keeps-bind _ _ (upgrade-OnPlan e _)
        λ state. addon_step-OnPlan core _ _ state (addons-OnPlan core rest end_of_loop ke)

  core_state-OnPlan :
      (chart : HelmChart) (state : HelmChartState)
      → Keeps (OnPlan P) (reconcile_core_state e type chart state)
  unfolding reconcile_core_state set_failed_condition
  core_state-OnPlan chart not_installed =
      Keeps-if (is_empty (dependency_charts chart)) _ _ (set_state-OnPlan not_installed _)
        (Keeps-then _ _ (change-OnPlan _ λ p. frame.kept _ _ p _) (Keeps-pure _))
  core_state-OnPlan chart unknown = set_state-OnPlan unknown _
  core_state-OnPlan chart in_progress = set_state-OnPlan in_progress _
  core_state-OnPlan chart failed = set_state-OnPlan failed _
  core_state-OnPlan chart succeeded =
      addons-OnPlan _ (addon_charts chart) _ (set_state-OnPlan succeeded _)
  core_state-OnPlan chart version_already_installed =
      addons-OnPlan _ (addon_charts chart) _ (set_state-OnPlan version_already_installed _)

pub reconcile_helm_chart-OnPlan :
    (e : Env) {P : UpgradePlan → Type 0} (chart : HelmChart)
    → ConditionFrame e.conditions (get_chart_condition_type (fields chart).pretty_name) P
    → Keeps (OnPlan P) (reconcile_helm_chart e chart)
unfolding reconcile_helm_chart reconcile_core
reconcile_helm_chart-OnPlan e chart frame =
    dependencies-OnPlan e frame (dependency_charts chart) _
      (Keeps-bind _ _ (upgrade-OnPlan e _) (λ state. core_state-OnPlan e frame chart state))
