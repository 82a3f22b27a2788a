-- ===== src/Controller/Helm/Truth.antt =====
-- Which steps of a pass leave a chart's condition true.
use upgrade_controller.Prelude.{String, ◌≡◌, refl, sym, ◌∙◌, Bool, true, false, arith, eq_iff}
use upgrade_controller.Errors.{Result, ok, err, panic}
use upgrade_controller.Kube.{ConditionStatus, is_true, condition_false, condition_unknown}
use upgrade_controller.Api.UpgradePlan.{
  UpgradePlan, upgrade_skipped, upgrade_in_progress, upgrade_failed, upgrade_error,
}
use upgrade_controller.Api.ReleaseManifest.{HelmChart, fields}
use upgrade_controller.Upgrade.Helm.{
  HelmChartState, unknown, not_installed, version_already_installed, in_progress, failed, succeeded,
}
use upgrade_controller.Controller.Env.{Env}
use upgrade_controller.Controller.Effects.{Eff, State, CtrlResult, effects, continue, ◌>>=◌}
use upgrade_controller.Controller.Charts.{upgrade_helm_chart}
use upgrade_controller.Controller.Conditions.{set_condition, evaluate_helm_chart_state}
use upgrade_controller.Controller.Conditions.Laws.{ConditionLaws, has_true, has_true-set_condition}
use upgrade_controller.Controller.Helm.{set_state}
use upgrade_controller.Controller.Frame.Charts.{upgrade-OnPlan}

module _ (e : Env) (laws : ConditionLaws e.conditions) (type : String) where
  -- the condition after a run
  abbrev pub truth_of : {A : Type 0} → Result A × State e.World → Bool
  truth_of r = has_true e.conditions r.1.plan type

  -- A status other than True leaves the condition untrue.
  pub untrue :
      (p : UpgradePlan) (status : ConditionStatus) (reason message : String) {C : Type 0}
      → is_true status ≡ false
      → has_true e.conditions (set_condition e.conditions status reason p type message) type ≡ true
      → C
  untrue p status reason message is_false h =
      let stays : false ≡ true =
        sym (
          has_true-set_condition e.conditions laws p status reason type message type
          ∙ ground (arith, eq_iff type type, is_false))
        ∙ h in
      cc

  -- Of the states, only success makes the condition true.
  pub succeeded_of_true :
      (state : HelmChartState) (name : String) (s : State e.World)
      → truth_of (set_state e type state name s) ≡ true
      → state ≡ succeeded
  unfolding effects set_state evaluate_helm_chart_state
  succeeded_of_true succeeded name s h = refl
  succeeded_of_true not_installed name s h = untrue s.plan condition_false upgrade_skipped _ refl h
  succeeded_of_true version_already_installed name s h =
      untrue s.plan condition_false upgrade_skipped _ refl h
  succeeded_of_true in_progress name s h =
      untrue s.plan condition_false upgrade_in_progress _ refl h
  succeeded_of_true failed name s h = untrue s.plan condition_false upgrade_failed _ refl h
  succeeded_of_true unknown name s h = untrue s.plan condition_unknown upgrade_error _ refl h

  -- A chart's upgrade that the rest of a run goes on from: it returned a state, and kept the plan.
  pub record Upgraded (chart : HelmChart) (k : HelmChartState → Eff e.World CtrlResult)
      (s : State e.World) : Type 0 where
    pub state : HelmChartState
    pub after : State e.World
    pub ran : upgrade_helm_chart e (fields chart) s ≡ (ok state, after)
    pub kept : after.plan ≡ s.plan
    pub true_later : truth_of (k state after) ≡ true

  pub upgraded :
      (chart : HelmChart) (k : HelmChartState → Eff e.World CtrlResult) (s : State e.World)
      → has_true e.conditions s.plan type ≡ false
      → truth_of ((upgrade_helm_chart e (fields chart) >>= k) s) ≡ true
      → Upgraded chart k s
  unfolding effects
  upgraded chart k s before = go (upgrade_helm_chart e (fields chart) s) refl (
      ((upgrade-OnPlan e {P = λ q. q ≡ s.plan} (fields chart)).at s
        (record { holds = refl })).holds)
    where
      go :
          (r : Result HelmChartState × State e.World)
          → upgrade_helm_chart e (fields chart) s ≡ r
          → r.1.plan ≡ s.plan
          → truth_of (continue r k) ≡ true
          → Upgraded chart k s
      go (ok state, after) q same h = record {
        state = state;
        after = after;
        ran = q;
        kept = same;
        true_later = h;
      }
      go (err error, after) q same h = let f : false ≡ true = sym before ∙ (rw same at h) in cc
      go (panic text, after) q same h = let f : false ≡ true = sym before ∙ (rw same at h) in cc
