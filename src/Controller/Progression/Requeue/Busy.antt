-- ===== src/Controller/Progression/Requeue/Busy.antt =====
-- Passes over a chart that find one of its add-ons being upgraded.
use upgrade_controller.Prelude.{◌≡◌, true, some, List, ◌∷◌}
use upgrade_controller.Errors.{ok}
use upgrade_controller.Kube.{condition_false}
use upgrade_controller.Api.UpgradePlan.{UpgradePlan, upgrade_in_progress}
use upgrade_controller.Api.ReleaseManifest.{HelmChart, fields, dependency_charts, addon_charts}
use upgrade_controller.Upgrade.Helm.{formatted_message, HelmChartState, in_progress}
use upgrade_controller.Controller.Env.{Env}
use upgrade_controller.Controller.Conditions.Laws.{condition_of}
use upgrade_controller.Controller.Effects.{State}
use upgrade_controller.Controller.Charts.{upgrade_helm_chart}
use upgrade_controller.Controller.Helm.Runs.{is_ended, DependenciesDone}
use upgrade_controller.Controller.Helm.{is_done, addon_event}
use upgrade_controller.Controller.Reconcile.Generation.{chart_type}

module _ (e : Env) (chart : HelmChart) where
  -- A run over add-ons that stops at one whose upgrade is in progress: those before it have ended,
  -- and the condition of the chart in the plan `p` says which it is.
  pub data StopsBusy (p : UpgradePlan) : List HelmChart → State e.World → Type 0 where
    busy :
        {addon : HelmChart} {rest : List HelmChart} {s after : State e.World}
        → upgrade_helm_chart e (fields addon) s ≡ (ok in_progress, after)
        → condition_of e.conditions p (chart_type chart)
          ≡ some (record {
            type = chart_type chart;
            status = condition_false;
            reason = upgrade_in_progress;
            message = formatted_message in_progress (fields addon).release_name;
          })
        → StopsBusy p (addon ∷ rest) s
    next_ended :
        {addon : HelmChart} {rest : List HelmChart} {s after : State e.World}
        (state : HelmChartState)
        → upgrade_helm_chart e (fields addon) s ≡ (ok state, after)
        → is_ended state ≡ true
        → StopsBusy p rest
            (addon_event e
              (chart_type chart)
              (fields chart).release_name
              (fields addon).release_name
              state
              after).1
        → StopsBusy p (addon ∷ rest) s

  -- A pass from `s` found the dependencies done, in their order, then the chart itself, and then
  -- one of its add-ons in progress.
  pub record AddonInProgress (s : State e.World) (p : UpgradePlan) : Type 0 where
    pub ready : State e.World
    pub after : State e.World
    pub state : HelmChartState
    pub dependencies : DependenciesDone e (dependency_charts chart) s ready
    pub core : upgrade_helm_chart e (fields chart) ready ≡ (ok state, after)
    pub core_done : is_done state ≡ true
    pub addons : StopsBusy p (addon_charts chart) after
