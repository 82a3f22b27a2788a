-- ===== src/Controller/Helm/Success.antt =====
-- When the condition of a chart becomes true.
use upgrade_controller.Prelude.{
  String, ◌≡◌, refl, sym, ◌∙◌, true, false, List, [], ◌∷◌, is_empty, Bool-cases, inl, inr,
}
use upgrade_controller.Errors.{ok}
use upgrade_controller.Kube.{condition_false}
use upgrade_controller.Api.UpgradePlan.{
  get_chart_condition_type, upgrade_in_progress, upgrade_failed,
}
use upgrade_controller.Api.ReleaseManifest.{HelmChart, fields, dependency_charts, addon_charts}
use upgrade_controller.Upgrade.Helm.{
  HelmChartState, unknown, not_installed, version_already_installed, in_progress, failed, succeeded,
}
use upgrade_controller.Controller.Env.{Env}
use upgrade_controller.Controller.Effects.{Eff, State, CtrlResult, effects}
use upgrade_controller.Controller.Charts.{upgrade_helm_chart}
use upgrade_controller.Controller.Conditions.{set_in_progress_condition, set_failed_condition}
use upgrade_controller.Controller.Conditions.Laws.{ConditionLaws, has_true}
use upgrade_controller.Controller.Helm.{
  is_done, set_state, upgrade_dependencies, addon_event, addon_step, upgrade_addons,
  reconcile_core_state, reconcile_core, reconcile_helm_chart,
}
use upgrade_controller.Controller.Helm.Runs.{is_ended, event_then, DependenciesDone, AddonsEnded}
use upgrade_controller.Controller.Frame.Helm.{addon_event-OnPlan}
use upgrade_controller.Controller.Helm.Truth.{truth_of, untrue, succeeded_of_true, upgraded}

module _ (e : Env) (laws : ConditionLaws e.conditions) (type : String) where
  -- A run over the dependencies that ends in success went through all of them.
  record Reached (deps : List HelmChart) (core : Eff e.World CtrlResult) (s : State e.World)
      : Type 0 where
    after : State e.World
    done : DependenciesDone e deps s after
    kept : after.plan ≡ s.plan
    true_later : truth_of e laws type (core after) ≡ true

  reached :
      (deps : List HelmChart) (core : Eff e.World CtrlResult) (s : State e.World)
      → has_true e.conditions s.plan type ≡ false
      → truth_of e laws type (upgrade_dependencies e type deps core s) ≡ true
      → Reached deps core s
  unfolding upgrade_dependencies
  reached [] core s before h = record {
    after = s;
    done = DependenciesDone.none_left s;
    kept = refl;
    true_later = h;
  }
  reached (dep ∷ rest) core s before h =
      let u = upgraded e laws type dep _ s before h in
      elim (Bool-cases (is_done u.state)) [
        | inl is_done_state ↦
            let r =
              reached rest core u.after (rw u.kept before) (rw is_done_state at u.true_later) in
            record {
              after = r.after;
              done = DependenciesDone.next_done u.state u.ran is_done_state r.done;
              kept = r.kept ∙ u.kept;
              true_later = r.true_later;
            }
        | inr not_done ↦
            let q = succeeded_of_true e laws type u.state _ u.after (rw not_done at u.true_later) in
            let f : true ≡ false = rw q at not_done in cc
      ]

  -- a step over an add-on that leaves the condition true
  step_true :
      (core addon : String) (rest : Eff e.World CtrlResult) (state : HelmChartState)
      (s : State e.World)
      → has_true e.conditions s.plan type ≡ false
      → truth_of e laws type (addon_step e type core addon rest state s) ≡ true
      → (is_ended state ≡ true)
        × (truth_of e laws type (rest (addon_event e type core addon state s).1) ≡ true)
  unfolding effects addon_step set_in_progress_condition
  step_true core addon rest in_progress s before h =
      untrue e laws type s.plan condition_false upgrade_in_progress _ refl h
  step_true core addon rest unknown s before h = let f : false ≡ true = sym before ∙ h in cc
  step_true core addon rest failed s before h =
      (refl, rw (event_then e type core addon failed rest s) at h)
  step_true core addon rest not_installed s before h =
      (refl, rw (event_then e type core addon not_installed rest s) at h)
  step_true core addon rest succeeded s before h =
      (refl, rw (event_then e type core addon succeeded rest s) at h)
  step_true core addon rest version_already_installed s before h =
      (refl, rw (event_then e type core addon version_already_installed rest s) at h)

  addons_ended :
      (core : String) (addons : List HelmChart) (finish : Eff e.World CtrlResult)
      (s : State e.World)
      → has_true e.conditions s.plan type ≡ false
      → truth_of e laws type (upgrade_addons e type core addons finish s) ≡ true
      → (last : State e.World) × AddonsEnded e type core addons s last
        × (truth_of e laws type (finish last) ≡ true)
  unfolding upgrade_addons
  addons_ended core [] finish s before h = (s, AddonsEnded.none_left s, h)
  addons_ended core (addon ∷ rest) finish s before h =
      let name = (fields addon).release_name in
      let u = upgraded e laws type addon _ s before h in
      let (ended, later) =
        step_true core name (upgrade_addons e type core rest finish) u.state u.after
          (rw u.kept before) u.true_later in
      let kept =
        (addon_event-OnPlan e {P = λ q. q ≡ s.plan} type core name u.state).at u.after
          (record { holds = u.kept }) in
      let (last, run, truth) =
        addons_ended core rest finish (addon_event e type core name u.state u.after).1
          (rw kept.holds before) later in
      (last, AddonsEnded.next_ended u.state u.ran ended run, truth)

  -- What stands behind a core chart whose condition became true.
  core_true :
      (chart : HelmChart) (state : HelmChartState) (s : State e.World)
      → has_true e.conditions s.plan type ≡ false
      → truth_of e laws type (reconcile_core_state e type chart state s) ≡ true
      → (last : State e.World) × (state ≡ succeeded)
        × AddonsEnded e type (fields chart).release_name (addon_charts chart) s last
  unfolding effects reconcile_core_state set_failed_condition
  core_true chart not_installed s before h =
      elim (Bool-cases (is_empty (dependency_charts chart))) [
        | inl alone ↦ let q = succeeded_of_true e laws type not_installed _ s (rw alone at h) in cc
        | inr deps ↦ untrue e laws type s.plan condition_false upgrade_failed _ refl (rw deps at h)
      ]
  core_true chart in_progress s before h =
      let q = succeeded_of_true e laws type in_progress _ s h in cc
  core_true chart failed s before h = let q = succeeded_of_true e laws type failed _ s h in cc
  core_true chart unknown s before h = let q = succeeded_of_true e laws type unknown _ s h in cc
  core_true chart version_already_installed s before h =
      let (last, run, truth) =
        addons_ended (fields chart).release_name (addon_charts chart)
          (set_state e type version_already_installed (fields chart).release_name) s before h in
      let q = succeeded_of_true e laws type version_already_installed _ last truth in cc
  core_true chart succeeded s before h =
      let (last, run, truth) =
        addons_ended (fields chart).release_name (addon_charts chart)
          (set_state e type succeeded (fields chart).release_name) s before h in
      (last, refl, run)

-- The upgrade of the chart itself succeeded, behind its dependencies and before its add-ons.
pub record ChartUpgraded (e : Env) (chart : HelmChart) (s : State e.World) : Type 0 where
  pub ready : State e.World
  pub after : State e.World
  pub last : State e.World
  pub dependencies : DependenciesDone e (dependency_charts chart) s ready
  pub core : upgrade_helm_chart e (fields chart) ready ≡ (ok succeeded, after)
  pub addons :
      AddonsEnded e
        (get_chart_condition_type (fields chart).pretty_name)
        (fields chart).release_name
        (addon_charts chart)
        after
        last

-- When a pass over a chart turns its condition true, the pass first went through every dependency
-- of the chart, in their order, and found each of them upgraded or at the wanted version already;
-- then it found the upgrade of the chart itself succeeded; and then it went through every add-on,
-- none of which is in progress or unknown. Conditions work as Kubernetes documents.
pub reconcile_helm_chart_success :
    (e : Env) (laws : ConditionLaws e.conditions) (chart : HelmChart) (s : State e.World)
    → has_true e.conditions s.plan (get_chart_condition_type (fields chart).pretty_name) ≡ false
    → has_true e.conditions
        (reconcile_helm_chart e chart s).1.plan
        (get_chart_condition_type (fields chart).pretty_name)
      ≡ true
    → ChartUpgraded e chart s
unfolding reconcile_helm_chart reconcile_core
reconcile_helm_chart_success e laws chart s before now =
    let type = get_chart_condition_type (fields chart).pretty_name in
    let r =
      reached e laws type (dependency_charts chart) (reconcile_core e type chart) s before now in
    let u = upgraded e laws type chart _ r.after (rw r.kept before) r.true_later in
    let (last, is_success, run) =
      core_true e laws type chart u.state u.after (rw (u.kept, r.kept) before) u.true_later in
    record {
      ready = r.after;
      after = u.after;
      last = last;
      dependencies = r.done;
      core = rw is_success at u.ran;
      addons = run;
    }
