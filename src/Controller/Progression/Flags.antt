-- ===== src/Controller/Progression/Flags.antt =====
-- The flags of an upgrade plan: whether its operating system, its Kubernetes and each of the
-- release's charts are finished; and what a change of one condition leaves of them.
use upgrade_controller.Prelude.{
  String, ◌≡◌, ◌≢◌, refl, ◌∙◌, Bool, List, [], ◌∷◌, All, arith, eq_iff,
}
use upgrade_controller.Kube.{ConditionStatus}
use upgrade_controller.Api.UpgradePlan.{
  UpgradePlan, operating_system_upgraded_condition, kubernetes_upgraded_condition,
  validation_failed_condition,
}
use upgrade_controller.Api.ReleaseManifest.{HelmChart}
use upgrade_controller.Controller.Env.{ConditionOps}
use upgrade_controller.Controller.Conditions.{set_condition, is_helm_upgrade_finished}
use upgrade_controller.Controller.Conditions.Laws.{
  ConditionLaws, has_true, condition_of, condition_of-set_condition,
}
use upgrade_controller.Controller.Reconcile.Generation.{IsPending, chart_type}
use upgrade_controller.Controller.Reconcile.Stages.{chart_finished}
use upgrade_controller.Controller.Frame.{ConditionFrame}
use upgrade_controller.Controller.Progression.{Cleared}

abbrev pub chart_flags : ConditionOps → UpgradePlan → List HelmChart → List Bool
chart_flags ops p [] = []
chart_flags ops p (chart ∷ rest) = chart_finished ops p chart ∷ chart_flags ops p rest

abbrev pub stage_flags : ConditionOps → List HelmChart → UpgradePlan → List Bool
stage_flags ops helm p =
    has_true ops p operating_system_upgraded_condition
    ∷ has_true ops p kubernetes_upgraded_condition
    ∷ chart_flags ops p helm

-- The condition types of the charts differ from this one.
abbrev pub Others : String → List HelmChart → Type 0
Others type helm = All (λ c. type ≢ chart_type c) helm

abbrev pub ChartsDistinct : List HelmChart → Type 0
ChartsDistinct [] = Unit
ChartsDistinct (chart ∷ rest) = Others (chart_type chart) rest × ChartsDistinct rest

-- The stages and charts of the release have condition types of their own.
pub record TypesDistinct (helm : List HelmChart) : Type 0 where
  pub validation_other : Others validation_failed_condition helm
  pub os_other : Others operating_system_upgraded_condition helm
  pub kubernetes_other : Others kubernetes_upgraded_condition helm
  pub charts_distinct : ChartsDistinct helm

-- what the controller reads of a plan when it builds the objects of an upgrade
pub record SameOwner (p q : UpgradePlan) : Type 0 where
  pub metadata_lem : q.metadata ≡ p.metadata
  pub spec_lem : q.spec ≡ p.spec
  pub suffix_lem : q.status.suc_name_suffix ≡ p.status.suc_name_suffix

-- The plans differ in the condition of this type only, of what the controller keeps in a plan.
pub record SameBut (ops : ConditionOps) (type : String) (before after : UpgradePlan) : Type 0 where
  pub same_metadata : after.metadata ≡ before.metadata
  pub same_spec : after.spec ≡ before.spec
  pub same_suffix : after.status.suc_name_suffix ≡ before.status.suc_name_suffix
  pub same_observed : after.status.observed_generation ≡ before.status.observed_generation
  pub same_release :
      after.status.last_successful_release_version ≡ before.status.last_successful_release_version
  pub same_conditions :
      (t : String) → type ≢ t → condition_of ops after t ≡ condition_of ops before t

pub SameOwner-of_SameBut :
    {ops : ConditionOps} {type : String} {p q : UpgradePlan} → SameBut ops type p q → SameOwner p q
SameOwner-of_SameBut same = record {
  metadata_lem = same.same_metadata;
  spec_lem = same.same_spec;
  suffix_lem = same.same_suffix;
}

module _ (ops : ConditionOps) where
  pub SameBut-refl : (type : String) (p : UpgradePlan) → SameBut ops type p p
  SameBut-refl type p = record {
    same_metadata = refl;
    same_spec = refl;
    same_suffix = refl;
    same_observed = refl;
    same_release = refl;
    same_conditions = λ t other. refl;
  }

  pub chart_finished-SameBut :
      {type : String} {p q : UpgradePlan} (chart : HelmChart)
      → SameBut ops type p q
      → type ≢ chart_type chart
      → chart_finished ops q chart ≡ chart_finished ops p chart
  unfolding is_helm_upgrade_finished
  chart_finished-SameBut chart same other = rw (same.same_conditions (chart_type chart) other) refl

  pub chart_flags-SameBut :
      {type : String} {p q : UpgradePlan} (helm : List HelmChart)
      → SameBut ops type p q
      → Others type helm
      → chart_flags ops q helm ≡ chart_flags ops p helm
  chart_flags-SameBut [] same others = refl
  chart_flags-SameBut {type} {p} {q} (chart ∷ rest) same (other, others) =
      let first = chart_finished-SameBut chart same other in
      let later = chart_flags-SameBut rest same others in cc

module _ (ops : ConditionOps) (laws : ConditionLaws ops) where
  pub has_true-SameBut :
      {type : String} {p q : UpgradePlan} (t : String)
      → SameBut ops type p q
      → type ≢ t
      → has_true ops q t ≡ has_true ops p t
  has_true-SameBut t same other =
      rw (laws.true-find, laws.true-find, same.same_conditions t other) refl

  other_condition :
      (status : ConditionStatus) (reason : String) (p : UpgradePlan) (type text t : String)
      → type ≢ t
      → condition_of ops (set_condition ops status reason p type text) t ≡ condition_of ops p t
  other_condition status reason p type text t other =
      rw (condition_of-set_condition ops laws p status reason type text t)
        (ground (arith, eq_iff type t))

  -- Changes of a plan's condition of this type change no other.
  pub SameBut-ConditionFrame :
      (type : String) (p : UpgradePlan) → ConditionFrame ops type (SameBut ops type p)
  unfolding set_condition
  SameBut-ConditionFrame type p = record {
    kept = λ status reason q text same. record {
      same_metadata = same.same_metadata;
      same_spec = same.same_spec;
      same_suffix = same.same_suffix;
      same_observed = same.same_observed;
      same_release = same.same_release;
      same_conditions = λ t other.
          other_condition status reason q type text t other ∙ same.same_conditions t other;
    };
  }

-- What is pending has no flag set.
pub chart_flags-Cleared :
    (ops : ConditionOps) (p : UpgradePlan) (helm : List HelmChart)
    → All (λ c. IsPending ops p (chart_type c)) helm
    → Cleared (chart_flags ops p helm)
chart_flags-Cleared ops p [] h = tt
chart_flags-Cleared ops p (chart ∷ rest) (first, h) =
    (first.unfinished, chart_flags-Cleared ops p rest h)
