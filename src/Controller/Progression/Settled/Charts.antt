-- ===== src/Controller/Progression/Settled/Charts.antt =====
-- reconcile_helm.go, helm.go: passes over a chart that is done in the cluster.
use upgrade_controller.Prelude.{String, ◌≡◌, refl, true, false, List, [], ◌∷◌, All, ◌∙◌}
use upgrade_controller.Errors.{Result, ok}
use upgrade_controller.Api.UpgradePlan.{get_chart_condition_type}
use upgrade_controller.Api.ReleaseManifest.{
  HelmChart, ChartFields, fields, dependency_charts, addon_charts,
}
use upgrade_controller.Upgrade.Helm.{
  HelmChartState, unknown, not_installed, version_already_installed, in_progress, failed, succeeded,
}
use upgrade_controller.Controller.Env.{Env, HelmRelease}
use upgrade_controller.Controller.Effects.{Eff, Call, State, CtrlResult, requeue_if, effects}
use upgrade_controller.Controller.Charts.{
  state_of_job, upgrade_existing_chart, upgrade_missing_chart, upgrade_release, upgrade_helm_chart,
}
use upgrade_controller.Controller.Conditions.{evaluate_helm_chart_state}
use upgrade_controller.Controller.Conditions.Laws.{ConditionLaws}
use upgrade_controller.Controller.Conditions.States.{finished-evaluate}
use upgrade_controller.Controller.Reconcile.Stages.{chart_finished}
use upgrade_controller.Controller.Progression.Settled.Done.{ResourceDone, FieldsDone, ChartDone}
use upgrade_controller.Controller.Helm.{
  is_done, set_state, upgrade_dependencies, addon_event, addon_step, upgrade_addons,
  reconcile_core_state, reconcile_core, reconcile_helm_chart,
}

-- the state of the chart, with nothing changed
pub record Unchanged (e : Env) (wanted : ChartFields) (s : State e.World) : Type 0 where
  pub state : HelmChartState
  pub ran : upgrade_helm_chart e wanted s ≡ (ok state, s)
  pub done : is_done state ≡ true

module _ (e : Env) (version : String) where
  release-ResourceDone :
      (wanted : ChartFields) (release : HelmRelease) (s : State e.World)
      → s.plan.spec.release_version ≡ version
      → ResourceDone e s.world version wanted release
      → (state : HelmChartState) × (upgrade_release e wanted (ok release) s ≡ (ok state, s))
        × (is_done state ≡ true)
  unfolding effects upgrade_release upgrade_existing_chart upgrade_missing_chart state_of_job
  release-ResourceDone wanted release s owner (ResourceDone.installed error q missing same) =
      (version_already_installed, rw (q, missing, same) refl, refl)
  release-ResourceDone wanted release s owner (ResourceDone.unchanged chart q same other) =
      (version_already_installed, rw (q, owner, same, other) refl, refl)
  release-ResourceDone wanted release s owner (ResourceDone.completed chart job q same ours j c) =
      (succeeded, rw (q, owner, same, ours, j, c) refl, refl)

  pub upgrade-FieldsDone :
      (wanted : ChartFields) (s : State e.World)
      → s.plan.spec.release_version ≡ version
      → FieldsDone e s.world version wanted
      → Unchanged e wanted s
  unfolding upgrade_helm_chart
  upgrade-FieldsDone wanted s owner done =
      let (state, ran, is_done_state) =
        release-ResourceDone wanted done.release s owner done.resource in
      record { state = state; ran = rw done.installed_release ran; done = is_done_state }

-- A chart is done in two states only.
done_rule :
    (P : HelmChartState → Type 0)
    → P succeeded
    → P version_already_installed
    → (state : HelmChartState) → is_done state ≡ true
    → P state
done_rule P upgraded present succeeded done = upgraded
done_rule P upgraded present version_already_installed done = present
done_rule P upgraded present unknown done = let f : false ≡ true = done in cc
done_rule P upgraded present not_installed done = let f : false ≡ true = done in cc
done_rule P upgraded present in_progress done = let f : false ≡ true = done in cc
done_rule P upgraded present failed done = let f : false ≡ true = done in cc

-- behind an add-on that is done: at most an event
step-is_done :
    (e : Env) (type core addon : String) (rest : Eff e.World CtrlResult) (s : State e.World)
    (state : HelmChartState)
    → is_done state ≡ true
    → (trace : List Call) × (addon_step e type core addon rest state s
        ≡ rest (record s { trace = trace }))
unfolding effects addon_step addon_event
step-is_done e type core addon rest s = done_rule _ (_, refl) (_, refl)

module _ (e : Env) (version type : String) where
  dependencies-FieldsDone :
      (deps : List HelmChart) (core : Eff e.World CtrlResult) (s : State e.World)
      → s.plan.spec.release_version ≡ version
      → All (λ c. FieldsDone e s.world version (fields c)) deps
      → upgrade_dependencies e type deps core s ≡ core s
  unfolding effects upgrade_dependencies
  dependencies-FieldsDone [] core s owner all_done = refl
  dependencies-FieldsDone (dep ∷ rest) core s owner (first, others) =
      let u = upgrade-FieldsDone e version (fields dep) s owner first in
      rw (u.ran, u.done) (dependencies-FieldsDone rest core s owner others)

  addons-FieldsDone :
      (core : String) (addons : List HelmChart) (last : Eff e.World CtrlResult) (s : State e.World)
      → s.plan.spec.release_version ≡ version
      → All (λ c. FieldsDone e s.world version (fields c)) addons
      → (trace : List Call) × (upgrade_addons e type core addons last s
          ≡ last (record s { trace = trace }))
  unfolding effects upgrade_addons
  addons-FieldsDone core [] last s owner all_done = (s.trace, refl)
  addons-FieldsDone core (addon ∷ rest) last s owner (first, others) =
      let u = upgrade-FieldsDone e version (fields addon) s owner first in
      let (t, stepped) =
        step-is_done e type core (fields addon).release_name (upgrade_addons e type core rest last)
          s u.state u.done in
      let (trace, ran) = addons-FieldsDone core rest last (record s { trace = t }) owner others in
      (trace, rw u.ran (stepped ∙ ran))

-- A pass over a chart that is done asks for the next pass, leaves the cluster as it is, and leaves
-- the chart finished.
pub record ChartPass (e : Env) (chart : HelmChart) (s : State e.World)
    (r : Result CtrlResult × State e.World) : Type 0 where
  pub requeued : r.0 ≡ ok (requeue_if true)
  pub same_world : r.1.world ≡ s.world
  pub finished : chart_finished e.conditions r.1.plan chart ≡ true

module _ (e : Env) (laws : ConditionLaws e.conditions) (chart : HelmChart) where
  abbrev type_of_chart : String
  type_of_chart = get_chart_condition_type (fields chart).pretty_name

  set_state-ChartPass :
      (name : String) (s : State e.World) (state : HelmChartState)
      → is_done state ≡ true
      → ChartPass e chart s (set_state e type_of_chart state name s)
  unfolding effects set_state evaluate_helm_chart_state
  set_state-ChartPass name s =
      done_rule _
        (record {
          requeued = refl;
          same_world = refl;
          finished = finished-evaluate e.conditions laws s.plan type_of_chart _ succeeded;
        })
        (record {
          requeued = refl;
          same_world = refl;
          finished =
              finished-evaluate e.conditions laws s.plan type_of_chart _ version_already_installed;
        })

  core_state-is_done :
      (state : HelmChartState)
      → is_done state ≡ true
      → reconcile_core_state e type_of_chart chart state ≡ (
          upgrade_addons e type_of_chart
            (fields chart).release_name
            (addon_charts chart)
            (set_state e type_of_chart state (fields chart).release_name))
  unfolding reconcile_core_state
  core_state-is_done = done_rule _ refl refl

  pub reconcile_helm_chart-ChartPass :
      (s : State e.World)
      → ChartDone e s.world s.plan.spec.release_version chart
      → ChartPass e chart s (reconcile_helm_chart e chart s)
  unfolding effects reconcile_helm_chart reconcile_core
  reconcile_helm_chart-ChartPass s done =
      let version = s.plan.spec.release_version in
      let u = upgrade-FieldsDone e version (fields chart) s refl done.core in
      let (trace, ran) =
        addons-FieldsDone e version type_of_chart (fields chart).release_name (addon_charts chart)
          (set_state e type_of_chart u.state (fields chart).release_name) s refl done.addons in
      let p =
        set_state-ChartPass (fields chart).release_name (record s { trace = trace }) u.state
          u.done in
      rw
        (
          dependencies-FieldsDone e version type_of_chart (dependency_charts chart)
              (reconcile_core e type_of_chart chart) s refl done.dependencies,
          u.ran,
          core_state-is_done u.state u.done,
          ran,
        )
        (record { requeued = p.requeued; same_world = p.same_world; finished = p.finished })
