-- ===== src/Cmd/Startup.antt =====
-- The order in which the controller starts, and what ends the start.
pub mod Runs
use upgrade_controller.Prelude.{
  String, ◌≡◌, refl, List, [], ◌∷◌, ◌==◌, Bool-cases, inl, inr, if◌then◌else◌,
}
use upgrade_controller.Errors.{Result, ok, err, panic}
use upgrade_controller.Api.Webhook.{setup_webhook_with_manager}
use upgrade_controller.Controller.Env.{Env}
use upgrade_controller.Controller.Watches.Setup.{setup_with_manager}
use upgrade_controller.Cmd.Flags.{Parsed, parsed, help, bad_usage, parse_arguments}
use upgrade_controller.Cmd.Options.{
  Variables, default_variables, main_flags, with_defaults, manager_options, ReconcilerOptions,
  reconciler_options,
}
use upgrade_controller.Cmd.{
  SchemeGroup, client_go, lifecycle, system_upgrade, helm, Runtime, Exit, returned, exited, crashed,
  Step, got_config, created_manager, set_up_controller, set_up_webhook, added_healthz_check,
  added_readyz_check, started_manager, or_exit, changed, reconciler, must, enable_webhooks,
  run_manager, set_up_manager, main_with, after_parsing, main,
}
use upgrade_controller.Cmd.Startup.Runs.{EndsIn, NotAdded, Planned, RunOf, or_exit-RunOf}

module _ (e : Env) (runtime : Runtime e.World) where
  abbrev on_manager :
      Step
      → (runtime.registry.Manager → Result (Unit {0}) × runtime.registry.Manager)
      → Planned runtime.registry.Manager
  on_manager step call = record { step = step; call = λ m. changed (call m) }

  abbrev manager_calls : List (Planned runtime.registry.Manager)
  manager_calls =
      on_manager (added_healthz_check "healthz") (runtime.add_healthz_check "healthz")
      ∷ on_manager (added_readyz_check "readyz") (runtime.add_readyz_check "readyz")
      ∷ on_manager started_manager runtime.start
      ∷ []

  abbrev webhook_calls : List (Planned runtime.registry.Manager)
  webhook_calls =
      if runtime.getenv "ENABLE_WEBHOOKS" == "false"
      then manager_calls
      else on_manager set_up_webhook
          (setup_webhook_with_manager runtime.versions runtime.complete_webhook)
        ∷ manager_calls

  -- the steps of a start with these options of the reconciler, behind the making of the manager
  abbrev pub planned : ReconcilerOptions → List (Planned runtime.registry.Manager)
  planned options =
      on_manager (set_up_controller options)
        (setup_with_manager (reconciler e options) runtime.registry)
      ∷ webhook_calls

  run_manager-RunOf :
      (m : runtime.registry.Manager) → RunOf m manager_calls (run_manager e runtime m)
  unfolding run_manager
  run_manager-RunOf m =
      or_exit-RunOf (on_manager _ (runtime.add_healthz_check "healthz")) _ m _ λ healthy.
        or_exit-RunOf (on_manager _ (runtime.add_readyz_check "readyz")) _ healthy _ λ ready.
          or_exit-RunOf (on_manager _ runtime.start) _ ready _ (λ ended. RunOf.all_taken ended)

  webhook-RunOf :
      (m : runtime.registry.Manager)
      → RunOf m webhook_calls (
          if enable_webhooks e runtime
          then or_exit set_up_webhook
              (changed (setup_webhook_with_manager runtime.versions runtime.complete_webhook m))
              (run_manager e runtime)
          else run_manager e runtime m)
  webhook-RunOf m = elim (Bool-cases (runtime.getenv "ENABLE_WEBHOOKS" == "false")) [
    | inl off ↦ rw off (run_manager-RunOf m)
    | inr on ↦ rw on (
        or_exit-RunOf
          (on_manager _ (setup_webhook_with_manager runtime.versions runtime.complete_webhook)) _ m
          _ run_manager-RunOf)
  ]

  set_up_manager-RunOf :
      (options : ReconcilerOptions) (m : runtime.registry.Manager)
      → RunOf m (planned options) (set_up_manager e runtime options m)
  unfolding set_up_manager
  set_up_manager-RunOf options m =
      or_exit-RunOf (on_manager _ (setup_with_manager (reconciler e options) runtime.registry)) _ m
        _ webhook-RunOf

  abbrev pub parsed_arguments : List String → Parsed Variables
  parsed_arguments arguments =
      parse_arguments (main_flags runtime.zap_flags) (default_variables runtime.getenv) arguments

  -- All types are in the scheme.
  abbrev pub InScheme : Type 0
  InScheme = (group : SchemeGroup) → runtime.add_to_scheme group ≡ ok tt

  -- The runs that make a manager, or fail to.
  pub data ManagerRun (v : Variables) : Exit × List Step → Type 0 where
    no_config :
        (exit : Exit) → EndsIn runtime.get_config exit → ManagerRun v (exit, got_config ∷ [])
    no_manager :
        (exit : Exit)
        → runtime.get_config ≡ ok tt
        → EndsIn (runtime.new_manager (manager_options v)) exit
        → ManagerRun v (exit, got_config ∷ created_manager (manager_options v) ∷ [])
    ran :
        (m : runtime.registry.Manager) {exit : Exit} {steps : List Step}
        → runtime.get_config ≡ ok tt
        → runtime.new_manager (manager_options v) ≡ ok m
        → RunOf m (planned (reconciler_options v)) (exit, steps)
        → ManagerRun v (exit, got_config ∷ created_manager (manager_options v) ∷ steps)

  -- The runs of the program.
  pub data MainRun (arguments : List String) : Exit × List Step → Type 0 where
    no_scheme :
        (group : SchemeGroup) (text : String)
        → NotAdded (runtime.add_to_scheme group) text
        → MainRun arguments (crashed text, [])
    asked_for_help : InScheme → parsed_arguments arguments ≡ help → MainRun arguments (exited 0, [])
    wrong_usage :
        InScheme → parsed_arguments arguments ≡ bad_usage → MainRun arguments (exited 2, [])
    ran :
        (v : Variables) {r : Exit × List Step}
        → InScheme
        → parsed_arguments arguments ≡ parsed v
        → ManagerRun (with_defaults v) r
        → MainRun arguments r

  main_with-ManagerRun : (v : Variables) → ManagerRun (with_defaults v) (main_with e runtime v)
  unfolding or_exit main_with
  main_with-ManagerRun v =
      go runtime.get_config (runtime.new_manager (manager_options (with_defaults v))) refl refl
    where
      go :
          (c : Result (Unit {0})) (n : Result runtime.registry.Manager)
          → runtime.get_config ≡ c
          → runtime.new_manager (manager_options (with_defaults v)) ≡ n
          → ManagerRun (with_defaults v) (
              or_exit got_config c λ u.
                or_exit
                  (created_manager (manager_options (with_defaults v)))
                  n
                  (set_up_manager e runtime (reconciler_options (with_defaults v))))
      go (err error) n c_is n_is = ManagerRun.no_config _ (rw c_is refl)
      go (panic text) n c_is n_is = ManagerRun.no_config _ (rw c_is refl)
      go (ok u) (err error) c_is n_is = ManagerRun.no_manager _ c_is (rw n_is refl)
      go (ok u) (panic text) c_is n_is = ManagerRun.no_manager _ c_is (rw n_is refl)
      go (ok u) (ok m) c_is n_is =
          ManagerRun.ran m c_is n_is (set_up_manager-RunOf (reconciler_options (with_defaults v)) m)

  must-MainRun :
      (arguments : List String) (group : SchemeGroup) (next : Exit × List Step)
      → (runtime.add_to_scheme group ≡ ok tt → MainRun arguments next)
      → MainRun arguments (must e runtime (runtime.add_to_scheme group) next)
  must-MainRun arguments group next run = go (runtime.add_to_scheme group) refl
    where
      go :
          (r : Result (Unit {0}))
          → runtime.add_to_scheme group ≡ r
          → MainRun arguments (must e runtime r next)
      go (ok u) q = run q
      go (err error) q = MainRun.no_scheme group "AddToScheme" (rw q refl)
      go (panic text) q = MainRun.no_scheme group text (rw q refl)

  parsing-MainRun :
      (arguments : List String) (p : Parsed Variables)
      → InScheme
      → parsed_arguments arguments ≡ p
      → MainRun arguments (after_parsing e runtime p)
  parsing-MainRun arguments (parsed v) s q = MainRun.ran v s q (main_with-ManagerRun v)
  parsing-MainRun arguments help s q = MainRun.asked_for_help s q
  parsing-MainRun arguments bad_usage s q = MainRun.wrong_usage s q

  all_groups :
      runtime.add_to_scheme client_go ≡ ok tt
      → runtime.add_to_scheme lifecycle ≡ ok tt
      → runtime.add_to_scheme system_upgrade ≡ ok tt
      → runtime.add_to_scheme helm ≡ ok tt
      → InScheme
  all_groups a b c d client_go = a
  all_groups a b c d lifecycle = b
  all_groups a b c d system_upgrade = c
  all_groups a b c d helm = d

-- The program panics without a step where the scheme cannot be filled. Otherwise it ends without a
-- step where help is asked for (code 0) or where the arguments are wrong (code 2). Otherwise it
-- takes the steps of a start in their order, with the options of its arguments, up to the first
-- whose call fails, which ends it with code 1, or panics, which it ends with; only where all
-- succeed does it return.
pub main-MainRun :
    (e : Env) (runtime : Runtime e.World) (arguments : List String)
    → MainRun e runtime arguments (main e runtime arguments)
unfolding main
main-MainRun e runtime arguments = must-MainRun e runtime arguments client_go _ λ a.
    must-MainRun e runtime arguments lifecycle _ λ b.
      must-MainRun e runtime arguments system_upgrade _ λ c.
        must-MainRun e runtime arguments helm _
          λ d. parsing-MainRun e runtime arguments _ (all_groups e runtime a b c d) refl
