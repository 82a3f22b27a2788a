-- ===== src/Controller/Watches/Setup.antt =====
-- `SetupWithManager` of upgradeplan_controller.go: the two controllers that have to be installed,
-- and the watches.
use upgrade_controller.Prelude.{ℕ, String, Bool, List, [], ◌∷◌, Dict}
use upgrade_controller.Errors.{Result, in_context, ◌>>=◌}
use upgrade_controller.Kube.{NamespacedName, StatusCondition}
use upgrade_controller.Controller.Env.{Env}
use upgrade_controller.Controller.Watches.{
  WatchEvent, find_upgrade_plan_from_label, find_upgrade_plan_from_job, plan_predicate,
  job_predicate, secret_predicate,
}

-- A kind that the controller watches, with its filter, and from the labels of an object the plans
-- to reconcile. An upgrade plan's own changes are filtered by its generation.
pub data Watch (W : Type 0) : Type 0 where
  for_upgrade_plans : (WatchEvent ℕ → Bool) → Watch W
  watch_plans : (Dict String → List NamespacedName) → (WatchEvent (List String) → Bool) → Watch W
  watch_jobs :
      (Dict String → W → List NamespacedName) → (WatchEvent (List StatusCondition) → Bool) → Watch W
  watch_secrets : (Dict String → List NamespacedName) → (WatchEvent (Unit {0}) → Bool) → Watch W

-- What is called of controller-runtime and of the clients, over the cluster and the manager.
pub record Registry (W : Type 0) : Type 1 where
  pub Manager : Type 0
  -- `Get` of a custom resource definition
  pub get_definition : String → Manager → Result (Unit {0})
  -- the kinds of Helm charts and of SUC plans, with their groups
  pub helm_chart_kind : String
  pub suc_plan_kind : String
  -- `predicate.GenerationChangedPredicate`
  pub generation_changed : WatchEvent ℕ → Bool
  -- `Complete` of the builder with these watches
  pub complete : List (Watch W) → Manager → Result (Unit {0}) × Manager

module _ (e : Env) (registry : Registry e.World) where
  open registry use {Manager}

  -- the chain of the builder
  abbrev pub watches : List (Watch e.World)
  watches =
      for_upgrade_plans registry.generation_changed
      ∷ watch_plans find_upgrade_plan_from_label plan_predicate
      ∷ watch_jobs (find_upgrade_plan_from_job e) job_predicate
      ∷ watch_secrets find_upgrade_plan_from_label secret_predicate
      ∷ []

  -- the two checks
  unfoldable pub verify_controllers : Manager → Result (Unit {0})
  verify_controllers m = do
    _ ←
        in_context "verifying Helm Controller installation"
          (registry.get_definition registry.helm_chart_kind m)
    in_context "verifying System Upgrade Controller installation"
        (registry.get_definition registry.suc_plan_kind m)

  abbrev pub complete_if : Result (Unit {0}) → Manager → Result (Unit {0}) × Manager
  complete_if (Result.ok u) m = registry.complete watches m
  complete_if (Result.err error) m = (Result.err error, m)
  complete_if (Result.panic text) m = (Result.panic text, m)

  unfoldable pub setup_with_manager : Manager → Result (Unit {0}) × Manager
  unfolding verify_controllers
  setup_with_manager m = complete_if (verify_controllers m) m
