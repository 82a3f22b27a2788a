-- ===== src/Controller/Watches.antt =====
-- What makes the controller reconcile a plan: the map functions and the event filters of
-- upgradeplan_controller.go.
pub mod Triggers
pub mod Setup
use upgrade_controller.Prelude.{
  String, Bool, true, false, not, ◌&&◌, Option, none, some, List, [], ◌∷◌, ◌==◌, Dict, lookup,
  or_empty, is_empty, contains_func, if◌then◌else◌,
}
use upgrade_controller.Errors.{Result, ok, err, panic}
use upgrade_controller.Kube.{NamespacedName, StatusCondition, HelmChartResource}
use upgrade_controller.Upgrade.Base.{plan_name_label, plan_namespace_label}
use upgrade_controller.Upgrade.Helm.{chart_namespaced_name}
use upgrade_controller.Controller.Env.{Env}
use upgrade_controller.Controller.Charts.{is_finish}

-- `labels[key]` with `!ok || value == ""` as `none`
abbrev non_empty : Option String → Option String
non_empty none = none
non_empty (some s) = if s == "" then none else some s

unfoldable pub find_upgrade_plan_from_label : Dict String → List NamespacedName
find_upgrade_plan_from_label labels = elim (non_empty (lookup plan_name_label labels)) [
  | none ↦ []
  | some plan_name ↦
      record { namespace = or_empty (lookup plan_namespace_label labels); name = plan_name } ∷ []
]

-- A failed lookup is logged and gives no request.
abbrev from_chart : Result HelmChartResource → List NamespacedName
from_chart (ok chart) = find_upgrade_plan_from_label chart.metadata.labels
from_chart (err error) = []
from_chart (panic p) = []

unfoldable pub find_upgrade_plan_from_job : (e : Env) → Dict String → e.World → List NamespacedName
unfolding find_upgrade_plan_from_label
find_upgrade_plan_from_job e labels w =
    let requests = find_upgrade_plan_from_label labels in
    if is_empty requests
    then elim (non_empty (lookup e.chart_label labels)) [
      | none ↦ []
      | some chart_name ↦ from_chart (e.get_helm_chart (chart_namespaced_name chart_name) w)
    ]
    else requests

-- the kinds of event that a watch sees; an update with its old and new value
pub data WatchEvent (A : Type 0) : Type 0 where
  create_event delete_event generic_event : WatchEvent A
  update_event : (old new : A) → WatchEvent A

-- The filter on SUC plans, over `Status.Applying`. It sets no GenericFunc, and `predicate.Funcs`
-- lets such events through.
unfoldable pub plan_predicate : WatchEvent (List String) → Bool
plan_predicate create_event = false
plan_predicate delete_event = false
plan_predicate generic_event = true
plan_predicate (update_event old new) = is_empty new && not (is_empty old)

unfoldable pub is_job_finished : List StatusCondition → Bool
is_job_finished conditions = contains_func is_finish conditions

-- the filter on jobs, over their conditions
unfoldable pub job_predicate : WatchEvent (List StatusCondition) → Bool
unfolding is_job_finished
job_predicate create_event = false
job_predicate delete_event = false
job_predicate generic_event = false
job_predicate (update_event old new) = is_job_finished new && not (is_job_finished old)

-- the filter on secrets
unfoldable pub secret_predicate : {A : Type 0} → WatchEvent A → Bool
secret_predicate delete_event = false
secret_predicate _ = true
