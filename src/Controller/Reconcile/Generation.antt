-- ===== src/Controller/Reconcile/Generation.antt =====
-- The first pass over a new generation of a plan.
use upgrade_controller.Prelude.{
  ℕ, String, ◌≡◌, ◌≢◌, refl, true, false, List, [], ◌∷◌, All, ◌==◌, encode_hex, arith, eq_iff,
}
use upgrade_controller.Errors.{ok}
use upgrade_controller.Kube.{condition_unknown}
use upgrade_controller.Api.UpgradePlan.{
  UpgradePlan, operating_system_upgraded_condition, kubernetes_upgraded_condition, upgrade_pending,
  get_chart_condition_type,
}
use upgrade_controller.Api.ReleaseManifest.{HelmChart, fields}
use upgrade_controller.Upgrade.Base.{random_byte_num, generate_suffix}
use upgrade_controller.Controller.Env.{Env, ConditionOps}
use upgrade_controller.Controller.Effects.{State, requeue_if, effects}
use upgrade_controller.Controller.Conditions.{set_pending_condition, is_helm_upgrade_finished}
use upgrade_controller.Controller.Conditions.Laws.{
  ConditionLaws, has_true, has_true-set_condition, condition_of-set_condition,
}
use upgrade_controller.Controller.Reconcile.{
  set_charts_pending, start_generation, fresh_suffix, observe_generation,
}

-- The stage or chart of this condition type is to be upgraded.
pub record IsPending (ops : ConditionOps) (p : UpgradePlan) (type : String) : Type 0 where
  pub untrue : has_true ops p type ≡ false
  pub unfinished : is_helm_upgrade_finished ops p type ≡ false

abbrev pub chart_type : HelmChart → String
chart_type chart = get_chart_condition_type (fields chart).pretty_name

module _ (ops : ConditionOps) (laws : ConditionLaws ops) where
  -- A condition set pending is pending,
  set-IsPending :
      (p : UpgradePlan) (type message : String)
      → IsPending ops (set_pending_condition ops p type message) type
  unfolding set_pending_condition is_helm_upgrade_finished
  set-IsPending p type message = record {
    untrue = ground (
      arith,
      eq_iff type type,
      has_true-set_condition ops laws p condition_unknown upgrade_pending type message type,
    );
    unfinished =
        rw
          (condition_of-set_condition ops laws p condition_unknown upgrade_pending type message
            type)
          (ground (arith, eq_iff type type));
  }

  -- and the others stay so.
  set-stays_pending :
      (p : UpgradePlan) (type message t : String)
      → IsPending ops p t
      → IsPending ops (set_pending_condition ops p type message) t
  unfolding set_pending_condition is_helm_upgrade_finished
  set-stays_pending p type message t h = record {
    untrue = ground (
      arith,
      h.untrue,
      has_true-set_condition ops laws p condition_unknown upgrade_pending type message t,
    );
    unfinished =
        rw (condition_of-set_condition ops laws p condition_unknown upgrade_pending type message t)
          (ground (arith, h.unfinished));
  }

module _ (e : Env) (laws : ConditionLaws e.conditions) where
  charts-stay_pending :
      (helm : List HelmChart) (p : UpgradePlan) (t : String)
      → IsPending e.conditions p t
      → IsPending e.conditions (set_charts_pending e helm p) t
  unfolding set_charts_pending
  charts-stay_pending [] p t h = h
  charts-stay_pending (chart ∷ rest) p t h =
      charts-stay_pending rest _ t (set-stays_pending e.conditions laws p _ _ t h)

  charts-IsPending :
      (helm : List HelmChart) (p : UpgradePlan)
      → All (λ c. IsPending e.conditions (set_charts_pending e helm p) (chart_type c)) helm
  unfolding set_charts_pending
  charts-IsPending [] p = tt
  charts-IsPending (chart ∷ rest) p = (
    charts-stay_pending rest _ (chart_type chart) (set-IsPending e.conditions laws p _ _),
    charts-IsPending rest _,
  )

-- only conditions change
charts-same :
    (e : Env) (helm : List HelmChart) (p : UpgradePlan)
    → ((set_charts_pending e helm p).status.observed_generation ≡ p.status.observed_generation)
      × ((set_charts_pending e helm p).status.suc_name_suffix ≡ p.status.suc_name_suffix)
unfolding set_charts_pending set_pending_condition
charts-same e [] p = (refl, refl)
charts-same e (chart ∷ rest) p = charts-same e rest _

pub charts_pending-metadata :
    (e : Env) (helm : List HelmChart) (p : UpgradePlan)
    → (set_charts_pending e helm p).metadata ≡ p.metadata
unfolding set_charts_pending set_pending_condition
charts_pending-metadata e [] p = refl
charts_pending-metadata e (chart ∷ rest) p = charts_pending-metadata e rest _

-- The plan's generation is observed under the suffix, and everything is to be upgraded.
pub record Restarted (ops : ConditionOps) (helm : List HelmChart) (suffix : String)
    (before after : UpgradePlan) : Type 0 where
  pub observed : after.status.observed_generation ≡ before.metadata.generation
  pub renamed : after.status.suc_name_suffix ≡ suffix
  pub os : IsPending ops after operating_system_upgraded_condition
  pub kubernetes : IsPending ops after kubernetes_upgraded_condition
  pub charts : All (λ c. IsPending ops after (chart_type c)) helm

pub start_generation-Restarted :
    (e : Env) (laws : ConditionLaws e.conditions) (helm : List HelmChart) (suffix : String)
    (p : UpgradePlan)
    → Restarted e.conditions helm suffix p (start_generation e helm suffix p)
unfolding start_generation set_pending_condition
start_generation-Restarted e laws helm suffix p = record {
  observed = (charts-same e helm _).0;
  renamed = (charts-same e helm _).1;
  os =
      charts-stay_pending e laws helm _ _
        (set-stays_pending e.conditions laws _ _ _ _ (set-IsPending e.conditions laws _ _ _));
  kubernetes = charts-stay_pending e laws helm _ _ (set-IsPending e.conditions laws _ _ _);
  charts = charts-IsPending e laws helm _;
}

-- The pass over a generation that was not observed yet, where the random source gives a suffix
-- other than the plan's, makes no call, asks to be run again at once, and leaves the generation
-- observed under that suffix with the OS, Kubernetes and every chart of the release to be upgraded,
-- whatever the conditions of the generation before. Conditions work as Kubernetes documents.
pub observe_generation-Restarted :
    (e : Env) (laws : ConditionLaws e.conditions) (helm : List HelmChart) (s : State e.World)
    (bytes : List ℕ) (w : e.World)
    → e.read_random random_byte_num s.world ≡ (ok bytes, w)
    → encode_hex bytes ≢ s.plan.status.suc_name_suffix
    → ((observe_generation e helm s).0 ≡ ok (requeue_if true))
      × ((observe_generation e helm s).1.trace ≡ s.trace)
      × Restarted e.conditions helm (encode_hex bytes) s.plan (observe_generation e helm s).1.plan
unfolding effects observe_generation fresh_suffix generate_suffix
observe_generation-Restarted e laws helm s bytes w read fresh =
    rw (read, other) (refl, refl, start_generation-Restarted e laws helm (encode_hex bytes) s.plan)
  where
    other : (encode_hex bytes == s.plan.status.suc_name_suffix) ≡ false
    other = ground (arith, eq_iff (encode_hex bytes) s.plan.status.suc_name_suffix)
