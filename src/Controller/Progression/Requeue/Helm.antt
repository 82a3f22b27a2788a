-- ===== src/Controller/Progression/Requeue/Helm.antt =====
-- Where a pass over a chart asks to be run again at once, the chart is finished, or the pass found
-- one of its add-ons being upgraded.
use upgrade_controller.Prelude.{
  refl, false, Bool-cases, String, ◌≡◌, ◌⊎◌, ◌∙◌, true, some, List, [], ◌∷◌, is_empty, inl, inr,
  arith, eq_iff,
}
use upgrade_controller.Errors.{Result, ok}
use upgrade_controller.Kube.{condition_false}
use upgrade_controller.Api.UpgradePlan.{UpgradePlan, upgrade_in_progress, upgrade_failed}
use upgrade_controller.Api.ReleaseManifest.{HelmChart, fields, dependency_charts, addon_charts}
use upgrade_controller.Upgrade.Helm.{
  formatted_message, HelmChartState, unknown, not_installed, version_already_installed, in_progress,
  failed, succeeded,
}
use upgrade_controller.Controller.Env.{Env}
use upgrade_controller.Controller.Conditions.{
  evaluate_helm_chart_state, set_failed_condition, set_in_progress_condition,
  is_helm_upgrade_finished,
}
use upgrade_controller.Controller.Conditions.Laws.{
  ConditionLaws, condition_of, condition_of-set_condition,
}
use upgrade_controller.Controller.Conditions.States.{finished-evaluate}
use upgrade_controller.Controller.Effects.{CtrlResult, Eff, State, effects, requeue_if}
use upgrade_controller.Controller.Effects.Rules.{bind_succeeded}
use upgrade_controller.Controller.Charts.{upgrade_helm_chart}
use upgrade_controller.Controller.Helm.Runs.{is_ended, event_then, DependenciesDone}
use upgrade_controller.Controller.Helm.{
  is_done, set_state, upgrade_dependencies, addon_event, addon_step, upgrade_addons,
  reconcile_core_state, reconcile_core, reconcile_helm_chart,
}
use upgrade_controller.Controller.Reconcile.Generation.{chart_type}
use upgrade_controller.Controller.Reconcile.Stages.{chart_finished}
use upgrade_controller.Controller.Progression.Requeue.Busy.{StopsBusy, AddonInProgress}

-- The run asks for another one at once.
abbrev Asks : {W : Type 0} → Result CtrlResult × State W → Type 0
Asks r = r.0 ≡ ok (requeue_if true)

module _ (e : Env) (laws : ConditionLaws e.conditions) (chart : HelmChart) where
  abbrev type : String
  type = chart_type chart

  abbrev Finished : Result CtrlResult × State e.World → Type 0
  Finished r = chart_finished e.conditions r.1.plan chart ≡ true

  state-Asks :
      (state : HelmChartState) (name : String) (s : State e.World)
      → Asks (set_state e type state name s)
      → Finished (set_state e type state name s)
  unfolding set_state effects
  state-Asks state name s asks =
      finished-evaluate e.conditions laws s.plan type _ state
      ∙ (let q : (evaluate_helm_chart_state e.conditions state).1 ≡ true = cc in q)

  dependencies-Asks :
      (deps : List HelmChart) (core : Eff e.World CtrlResult) (s : State e.World)
      → Asks (upgrade_dependencies e type deps core s)
      → Finished (upgrade_dependencies e type deps core s)
        ⊎ ((ready : State e.World) × DependenciesDone e deps s ready
            × (upgrade_dependencies e type deps core s ≡ core ready))
  unfolding upgrade_dependencies
  dependencies-Asks [] core s asks = inr (s, DependenciesDone.none_left s, refl)
  dependencies-Asks (dep ∷ rest) core s asks =
      let (state, after, ran, later, same) =
        bind_succeeded (upgrade_helm_chart e (fields dep)) _ s asks in
      elim (Bool-cases (is_done state)) [
        | inl done ↦ elim (dependencies-Asks rest core after (rw done at later)) [
          | inl finished ↦ inl (rw (same, done) finished)
          | inr (ready, run, last) ↦
              inr (ready, DependenciesDone.next_done state ran done run, rw (same, done) last)
        ]
        | inr stops ↦ inl (rw (same, stops) (state-Asks state _ after (rw stops at later)))
      ]

  step-Asks :
      (core addon : String) (rest : Eff e.World CtrlResult) (state : HelmChartState)
      (s : State e.World)
      → Asks (addon_step e type core addon rest state s)
      → ((state ≡ in_progress)
          × (condition_of e.conditions (addon_step e type core addon rest state s).1.plan type
              ≡ some (record {
                type = type;
                status = condition_false;
                reason = upgrade_in_progress;
                message = formatted_message in_progress addon;
              })))
        ⊎ ((is_ended state ≡ true)
            × (addon_step e type core addon rest state s
                ≡ rest (addon_event e type core addon state s).1))
  unfolding effects addon_step set_in_progress_condition
  step-Asks core addon rest in_progress s asks = inl (
    refl,
    condition_of-set_condition e.conditions laws s.plan condition_false upgrade_in_progress type _
          type
        ∙ ground (arith, eq_iff type type),
  )
  step-Asks core addon rest unknown s asks = let f : false ≡ true = cc in cc
  step-Asks core addon rest failed s asks = inr (refl, event_then e type core addon failed rest s)
  step-Asks core addon rest not_installed s asks =
      inr (refl, event_then e type core addon not_installed rest s)
  step-Asks core addon rest succeeded s asks =
      inr (refl, event_then e type core addon succeeded rest s)
  step-Asks core addon rest version_already_installed s asks =
      inr (refl, event_then e type core addon version_already_installed rest s)

  abbrev over_addons :
      List HelmChart → Eff e.World CtrlResult → State e.World → Result CtrlResult × State e.World
  over_addons addons last = upgrade_addons e type (fields chart).release_name addons last

  addons-Asks :
      (addons : List HelmChart) (last : Eff e.World CtrlResult) (s : State e.World)
      → Asks (over_addons addons last s)
      → StopsBusy e chart (over_addons addons last s).1.plan addons s
        ⊎ ((end : State e.World) × (over_addons addons last s ≡ last end))
  unfolding upgrade_addons
  addons-Asks [] last s asks = inr (s, refl)
  addons-Asks (addon ∷ rest) last s asks =
      let name = (fields addon).release_name in
      let (state, after, ran, later, same) =
        bind_succeeded (upgrade_helm_chart e (fields addon)) _ s asks in
      elim (step-Asks (fields chart).release_name name (over_addons rest last) state after later) [
        | inl (is_busy, condition) ↦ inl (StopsBusy.busy (rw is_busy at ran) (rw same condition))
        | inr (ended, goes_on) ↦ elim (addons-Asks rest last _ (rw goes_on at later)) [
          | inl stops ↦ inl (StopsBusy.next_ended state ran ended (rw (same, goes_on) stops))
          | inr (end, q) ↦ inr (end, same ∙ goes_on ∙ q)
        ]
      ]

  core_missing :
      (p : UpgradePlan) (text : String)
      → chart_finished e.conditions (set_failed_condition e.conditions p type text) chart ≡ true
  unfolding set_failed_condition is_helm_upgrade_finished
  core_missing p text =
      rw
        (condition_of-set_condition e.conditions laws p condition_false upgrade_failed type text
          type)
        (ground (arith, eq_iff type type))

  -- behind a chart that is done
  done-Asks :
      (state : HelmChartState) (s : State e.World)
      → Asks
          (over_addons (addon_charts chart) (set_state e type state (fields chart).release_name) s)
      → Finished
          (over_addons (addon_charts chart) (set_state e type state (fields chart).release_name) s)
        ⊎ StopsBusy e chart
            (over_addons
              (addon_charts chart)
              (set_state e type state (fields chart).release_name)
              s).1.plan
            (addon_charts chart)
            s
  done-Asks state s asks = elim (addons-Asks (addon_charts chart) _ s asks) [
    | inl stops ↦ inr stops
    | inr (end, q) ↦ inl (rw q (state-Asks state _ end (rw q at asks)))
  ]

  core-Asks :
      (state : HelmChartState) (s : State e.World)
      → Asks (reconcile_core_state e type chart state s)
      → Finished (reconcile_core_state e type chart state s)
        ⊎ ((is_done state ≡ true)
            × StopsBusy e chart
                (reconcile_core_state e type chart state s).1.plan
                (addon_charts chart)
                s)
  unfolding effects reconcile_core_state
  core-Asks not_installed s asks = elim (Bool-cases (is_empty (dependency_charts chart))) [
    | inl alone ↦ inl (rw alone (state-Asks not_installed _ s (rw alone at asks)))
    | inr deps ↦ inl (rw deps (core_missing s.plan _))
  ]
  core-Asks unknown s asks = inl (state-Asks unknown _ s asks)
  core-Asks in_progress s asks = inl (state-Asks in_progress _ s asks)
  core-Asks failed s asks = inl (state-Asks failed _ s asks)
  core-Asks succeeded s asks = elim (done-Asks succeeded s asks) [
    | inl finished ↦ inl finished
    | inr stops ↦ inr (refl, stops)
  ]
  core-Asks version_already_installed s asks = elim (done-Asks version_already_installed s asks) [
    | inl finished ↦ inl finished
    | inr stops ↦ inr (refl, stops)
  ]

  pub reconcile_helm_chart-Asks :
      (s : State e.World)
      → (reconcile_helm_chart e chart s).0 ≡ ok (requeue_if true)
      → (chart_finished e.conditions (reconcile_helm_chart e chart s).1.plan chart ≡ true)
        ⊎ AddonInProgress e chart s (reconcile_helm_chart e chart s).1.plan
  unfolding reconcile_helm_chart reconcile_core
  reconcile_helm_chart-Asks s asks =
      elim (dependencies-Asks (dependency_charts chart) (reconcile_core e type chart) s asks) [
        | inl finished ↦ inl finished
        | inr (ready, dependencies, q) ↦
            let (state, after, core, later, same) =
              bind_succeeded (upgrade_helm_chart e (fields chart)) _ ready (rw q at asks) in
            elim (core-Asks state after later) [
              | inl finished ↦ inl (rw (q, same) finished)
              | inr (core_done, addons) ↦ inr (record {
                ready = ready;
                after = after;
                state = state;
                dependencies = dependencies;
                core = core;
                core_done = core_done;
                addons = rw (q, same) addons;
              })
            ]
      ]
