-- ===== src/Controller/Routing/Charts.antt =====
-- The charts' upgrades create and update only HelmChart resources that lead back to the plan.
use upgrade_controller.Prelude.{String, ◌≡◌, ◌≢◌, refl, List, [], ◌∷◌, is_empty}
use upgrade_controller.Errors.{Result, ok, err, panic, is_release_not_found}
use upgrade_controller.Kube.{ObjectMeta, HelmChartResource}
use upgrade_controller.Api.UpgradePlan.{UpgradePlan}
use upgrade_controller.Api.ReleaseManifest.{
  ChartFields, HelmChart, fields, dependency_charts, addon_charts,
}
use upgrade_controller.Upgrade.Helm.{
  HelmChartState, unknown, not_installed, in_progress, failed, succeeded,
}
use upgrade_controller.Controller.Env.{Env, HelmRelease}
use upgrade_controller.Controller.Effects.{Eff, CtrlResult}
use upgrade_controller.Controller.Effects.Keeps.{
  Keeps, Keeps-pure, Keeps-lift, Keeps-raise, Keeps-if, Keeps-bind, Keeps-then, Keeps-lift-bind,
  Keeps-if_found,
}
use upgrade_controller.Controller.Conditions.{
  set_in_progress_condition, set_failed_condition, evaluate_helm_chart_state,
}
use upgrade_controller.Controller.Charts.{
  state_of_job, job_key, update_helm_chart, create_helm_chart, upgrade_existing_chart,
  upgrade_missing_chart, upgrade_release, upgrade_helm_chart,
}
use upgrade_controller.Controller.Releases.{retrieve_helm_release}
use upgrade_controller.Controller.Helm.{
  is_done, set_state, upgrade_dependencies, addon_event, addon_step, upgrade_addons,
  reconcile_core_state, reconcile_core, reconcile_helm_chart,
}
use upgrade_controller.Controller.Routing.{
  Routed, act-Routed, create_object-Routed, change_plan-Routed, the_plan-Routed, eventf-Routed,
}
use upgrade_controller.Controller.Routing.Labels.{new_chart-Placed, updated_chart-LeadsTo}

module _ (e : Env) (m : ObjectMeta) (named : m.name ≢ "") where
  update-Routed :
      (chart : HelmChartResource) (release_chart : ChartFields)
      → Keeps (Routed m) (update_helm_chart e chart release_chart)
  unfolding update_helm_chart
  update-Routed chart release_chart = the_plan-Routed e m _ λ owner same.
      Keeps-lift-bind _ _ λ merged q.
        act-Routed e m _ _
          (rw (← same) (updated_chart-LeadsTo owner (rw same named) chart release_chart merged))

  create-Routed :
      (installed : HelmRelease) (release_chart : ChartFields)
      → Keeps (Routed m) (create_helm_chart e installed release_chart)
  unfolding create_helm_chart
  create-Routed installed release_chart = the_plan-Routed e m _ λ owner same.
      Keeps-lift-bind _ _ λ merged q.
        create_object-Routed e m _
          (rw (← same) (new_chart-Placed owner (rw same named) installed release_chart merged))

  job-Routed :
      (chart : HelmChartResource)
      → Keeps (Routed m) (λ s. (state_of_job (e.get_job (job_key chart) s.world), s))
  job-Routed chart = record { at = λ s h. h }

  existing-Routed :
      (release_chart : ChartFields) (chart : HelmChartResource)
      → Keeps (Routed m) (upgrade_existing_chart e release_chart chart)
  unfolding upgrade_existing_chart
  existing-Routed release_chart chart = the_plan-Routed e m _ λ owner same.
      Keeps-if _ _ _ (Keeps-if _ _ _ (job-Routed chart) (Keeps-pure _))
        (Keeps-then _ _ (update-Routed chart release_chart) (Keeps-pure _))

  missing-Routed :
      (release_chart : ChartFields) (release : HelmRelease)
      → Keeps (Routed m) (upgrade_missing_chart e release_chart release)
  unfolding upgrade_missing_chart
  missing-Routed release_chart release =
      Keeps-if _ _ _ (Keeps-pure _)
        (Keeps-then _ _ (create-Routed release release_chart) (Keeps-pure _))

  release-Routed :
      (release_chart : ChartFields) (r : Result HelmRelease)
      → Keeps (Routed m) (upgrade_release e release_chart r)
  unfolding upgrade_release
  release-Routed release_chart (ok release) =
      Keeps-if_found _ _ _ (missing-Routed release_chart release) (existing-Routed release_chart)
  release-Routed release_chart (err error) =
      Keeps-if (is_release_not_found error) _ _ (Keeps-pure _) (Keeps-raise _)
  release-Routed release_chart (panic p) = Keeps-lift _

  pub chart-Routed :
      (release_chart : ChartFields) → Keeps (Routed m) (upgrade_helm_chart e release_chart)
  unfolding upgrade_helm_chart
  chart-Routed release_chart = record {
    at = λ s h.
        (release-Routed release_chart
            (retrieve_helm_release e s.world release_chart.release_name)).at
          s h;
  }

  evaluated-metadata :
      (type message : String) (state : HelmChartState) (p : UpgradePlan)
      → ((evaluate_helm_chart_state e.conditions state).0 p type message).metadata ≡ p.metadata
  unfolding evaluate_helm_chart_state
  evaluated-metadata type message unknown p = refl
  evaluated-metadata type message _ p = refl

  state-Routed :
      (type : String) (state : HelmChartState) (name : String)
      → Keeps (Routed m) (set_state e type state name)
  unfolding set_state
  state-Routed type state name =
      Keeps-then _ _ (change_plan-Routed e m _ (evaluated-metadata type _ state)) (Keeps-pure _)

  dependencies-Routed :
      (type : String) (deps : List HelmChart) (core : Eff e.World CtrlResult)
      → Keeps (Routed m) core
      → Keeps (Routed m) (upgrade_dependencies e type deps core)
  unfolding upgrade_dependencies
  dependencies-Routed type [] core kc = kc
  dependencies-Routed type (dep ∷ rest) core kc =
      Keeps-bind _ _ (chart-Routed (fields dep)) λ state.
        Keeps-if (is_done state) _ _ (dependencies-Routed type rest core kc)
          (state-Routed type state _)

  addon_event-Routed :
      (type core addon : String) (state : HelmChartState)
      → Keeps (Routed m) (addon_event e type core addon state)
  unfolding addon_event
  addon_event-Routed type core addon failed = eventf-Routed e m _ _ _
  addon_event-Routed type core addon not_installed = eventf-Routed e m _ _ _
  addon_event-Routed type core addon succeeded = eventf-Routed e m _ _ _
  addon_event-Routed type core addon _ = Keeps-pure tt

  addon_step-Routed :
      (type core addon : String) (rest : Eff e.World CtrlResult) (state : HelmChartState)
      → Keeps (Routed m) rest
      → Keeps (Routed m) (addon_step e type core addon rest state)
  unfolding addon_step set_in_progress_condition
  addon_step-Routed type core addon rest in_progress kr =
      Keeps-then _ _ (change_plan-Routed e m _ (λ p. refl)) (Keeps-pure _)
  addon_step-Routed type core addon rest unknown kr = Keeps-pure _
  addon_step-Routed type core addon rest state kr =
      Keeps-then _ _ (addon_event-Routed type core addon _) kr

  addons-Routed :
      (type core : String) (addons : List HelmChart) (finish : Eff e.World CtrlResult)
      → Keeps (Routed m) finish
      → Keeps (Routed m) (upgrade_addons e type core addons finish)
  unfolding upgrade_addons
  addons-Routed type core [] finish kf = kf
  addons-Routed type core (addon ∷ rest) finish kf =
      Keeps-bind _ _ (chart-Routed (fields addon))
        λ state. addon_step-Routed type core _ _ state (addons-Routed type core rest finish kf)

  core_state-Routed :
      (type : String) (chart : HelmChart) (state : HelmChartState)
      → Keeps (Routed m) (reconcile_core_state e type chart state)
  unfolding reconcile_core_state set_failed_condition
  core_state-Routed type chart not_installed =
      Keeps-if (is_empty (dependency_charts chart)) _ _
        (state-Routed type not_installed (fields chart).release_name)
        (Keeps-then _ _ (change_plan-Routed e m _ (λ p. refl)) (Keeps-pure _))
  core_state-Routed type chart state =
      Keeps-if (is_done state) _ _
        (addons-Routed type (fields chart).release_name (addon_charts chart) _
          (state-Routed type state (fields chart).release_name))
        (state-Routed type state (fields chart).release_name)

  pub helm_chart-Routed : (chart : HelmChart) → Keeps (Routed m) (reconcile_helm_chart e chart)
  unfolding reconcile_helm_chart reconcile_core
  helm_chart-Routed chart =
      dependencies-Routed _ (dependency_charts chart) _
        (Keeps-bind _ _ (chart-Routed (fields chart)) (core_state-Routed _ chart))
