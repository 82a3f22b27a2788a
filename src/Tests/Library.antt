-- ===== src/Tests/Library.antt =====
-- The functions that the controller takes from its libraries, for the tests.
use upgrade_controller.Prelude.{
  ℕ, zero, suc, ◌≤◌, ◌<◌, String, ◌≡◌, refl, Bool, true, false, not, ◌&&◌, ◌||◌, Option, none, some,
  List, [], ◌∷◌, Dict, lookup, ◌==◌, length, arith, eq_iff, if◌then◌else◌,
}
use upgrade_controller.Errors.{Result, ok, err, message, ◌>>=◌}
use upgrade_controller.Kube.{Condition, LabelSelector, Requirement}
use upgrade_controller.Controller.Env.{ConditionOps, FinalizerOps}
use upgrade_controller.Controller.Conditions.Laws.{ConditionLaws, is_true_condition}
use upgrade_controller.Controller.Effects.Keeps.{attempts}
use upgrade_controller.Controller.Nodes.Selection.{has_value}
use upgrade_controller.Controller.Reconcile.Admission.{FinalizerLaws}

unfoldable pub set_status_condition : List Condition → Condition → List Condition
set_status_condition [] c = c ∷ []
set_status_condition (d ∷ cs) c =
    let rest = set_status_condition cs c in if d.type == c.type then c ∷ cs else d ∷ rest

unfoldable pub find_status_condition : List Condition → String → Option Condition
find_status_condition [] type = none
find_status_condition (d ∷ cs) type =
    let rest = find_status_condition cs type in if d.type == type then some d else rest

abbrev pub sample_conditions : ConditionOps
sample_conditions = record {
  set_status_condition = set_status_condition;
  find_status_condition = find_status_condition;
  is_status_condition_true = λ cs type. is_true_condition (find_status_condition cs type);
}

find-set :
    (cs : List Condition) (c : Condition) (type : String)
    → find_status_condition (set_status_condition cs c) type
      ≡ (if c.type == type then some c else find_status_condition cs type)
unfolding set_status_condition find_status_condition
find-set [] c type = refl
find-set (d ∷ cs) c type =
    ground (arith, eq_iff d.type c.type, eq_iff d.type type, eq_iff c.type type, find-set cs c type)

pub sample_conditions-ConditionLaws : ConditionLaws sample_conditions
sample_conditions-ConditionLaws = record { find-set = find-set; true-find = λ cs type. refl }

unfoldable pub contains_finalizer : List String → String → Bool
contains_finalizer [] f = false
contains_finalizer (g ∷ gs) f = g == f || contains_finalizer gs f

unfoldable pub remove_finalizer : List String → String → List String
remove_finalizer [] f = []
remove_finalizer (g ∷ gs) f = let rest = remove_finalizer gs f in if g == f then rest else g ∷ rest

abbrev pub sample_finalizers : FinalizerOps
sample_finalizers = record {
  contains_finalizer = contains_finalizer;
  add_finalizer = λ fs f. if contains_finalizer fs f then fs else f ∷ fs;
  remove_finalizer = remove_finalizer;
}

removal-shortens :
    (fs : List String) (f : String)
    → (length (remove_finalizer fs f) ≤ length fs)
      × (contains_finalizer fs f ≡ true → length (remove_finalizer fs f) < length fs)
unfolding contains_finalizer remove_finalizer
removal-shortens [] f = ground arith
removal-shortens (g ∷ gs) f = ground (arith, removal-shortens gs f)

pub sample_finalizers-FinalizerLaws : FinalizerLaws sample_finalizers
sample_finalizers-FinalizerLaws = record { remove_lem = λ fs f. (removal-shortens fs f).1 }

abbrev in_values : List String → Option String → Bool
in_values [] o = false
in_values (v ∷ []) o = has_value v o
in_values (v ∷ w ∷ vs) o = has_value v o || in_values (w ∷ vs) o

abbrev requirement : Requirement → Result (Dict String → Bool)
requirement r =
    if r.operator == "In"
    then ok (λ labels. in_values r.values (lookup r.key labels))
    else if r.operator == "NotIn"
    then ok (λ labels. not (in_values r.values (lookup r.key labels)))
    else err (message "not a valid selector operator")

abbrev requirements : List Requirement → Result (Dict String → Bool)
requirements [] = ok (λ labels. true)
requirements (r ∷ []) = requirement r
requirements (r ∷ q ∷ rest) = do
  first ← requirement r
  others ← requirements (q ∷ rest)
  ok (λ labels. first labels && others labels)

-- label selectors, by their expressions
abbrev pub selector : Option LabelSelector → Result (Dict String → Bool)
selector none = ok (λ labels. false)
selector (some s) = requirements s.match_expressions

-- every step is used
abbrev pub retry : ℕ → (S : Type 0) → (S → Result (Unit {0}) × S) → S → Result (Unit {0}) × S
retry zero S f s = (ok tt, s)
retry (suc more) S f s = attempts more f s
