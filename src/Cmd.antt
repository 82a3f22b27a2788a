-- ===== src/Cmd.antt =====
-- cmd/main.go: how the controller starts.
pub mod Flags
pub mod Options
pub mod Startup
pub mod Namespaces
pub mod CommandLine
pub mod Controllers
use upgrade_controller.Prelude.{
  ℕ, String, Bool, true, false, List, [], ◌∷◌, ◌==◌, Dict, if◌then◌else◌,
}
use upgrade_controller.Errors.{Result, ok, err, panic, Error}
use upgrade_controller.Api.Webhook.{Versions, Validator, setup_webhook_with_manager}
use upgrade_controller.Controller.Env.{Env}
use upgrade_controller.Controller.Watches.Setup.{Registry, setup_with_manager}
use upgrade_controller.Cmd.Flags.{Flag, Parsed, parsed, help, bad_usage, parse_arguments}
use upgrade_controller.Cmd.Options.{
  Variables, default_variables, main_flags, with_defaults, ManagerOptions, manager_options,
  ReconcilerOptions, reconciler_options,
}

-- the packages whose types `init` adds to the scheme
pub data SchemeGroup : Type 0 where
  client_go lifecycle system_upgrade helm : SchemeGroup

-- What is called of Go's runtime, of zap and of controller-runtime. `W` is the cluster.
pub record Runtime (W : Type 0) : Type 1 where
  pub registry : Registry W
  pub getenv : String → String
  pub zap_flags : Dict (Flag Variables)
  pub add_to_scheme : SchemeGroup → Result (Unit {0})
  -- `GetConfigOrDie` ends the program with code 1 where there is an error.
  pub get_config : Result (Unit {0})
  pub new_manager : ManagerOptions → Result registry.Manager
  pub versions : Versions
  -- `Complete` of the builder of the webhook for upgrade plans, with a validator
  pub complete_webhook : Validator → registry.Manager → Result (Unit {0}) × registry.Manager
  pub add_healthz_check : String → registry.Manager → Result (Unit {0}) × registry.Manager
  pub add_readyz_check : String → registry.Manager → Result (Unit {0}) × registry.Manager
  -- `Start` returns when the manager ends.
  pub start : registry.Manager → Result (Unit {0}) × registry.Manager

-- how the program ends: by the end of `main`, by `os.Exit`, by a panic
pub data Exit : Type 0 where
  returned : Exit
  exited : (code : ℕ) → Exit
  crashed : (text : String) → Exit

-- what `main` does, in the order of the code
pub data Step : Type 0 where
  got_config : Step
  created_manager : ManagerOptions → Step
  set_up_controller : ReconcilerOptions → Step
  set_up_webhook : Step
  added_healthz_check added_readyz_check : (name : String) → Step
  started_manager : Step

abbrev pub and_step : Step → Exit × List Step → Exit × List Step
and_step step (exit, steps) = (exit, step ∷ steps)

module _ {M : Type 0} where
  -- `if err := …; err != nil { …; os.Exit(1) }`, and what follows
  unfoldable pub or_exit : Step → Result M → (M → Exit × List Step) → Exit × List Step
  or_exit step (ok m) next = and_step step (next m)
  or_exit step (err error) next = (exited 1, step ∷ [])
  or_exit step (panic text) next = (crashed text, step ∷ [])

  -- the manager that a call leaves, where it succeeds
  abbrev pub changed : Result (Unit {0}) × M → Result M
  changed (ok u, m) = ok m
  changed (err error, m) = err error
  changed (panic text, m) = panic text

-- The reconciler has the options that `main` gives it.
abbrev pub reconciler : Env → ReconcilerOptions → Env
reconciler e options = record e {
  service_account = options.service_account;
  release_manifest_image = options.release_manifest_image;
  kubectl = options.kubectl;
}

module _ (e : Env) (runtime : Runtime e.World) where
  -- `utilruntime.Must`, which panics with the error
  abbrev pub must : Result (Unit {0}) → Exit × List Step → Exit × List Step
  must (ok u) next = next
  must (err error) next = (crashed "AddToScheme", [])
  must (panic text) next = (crashed text, [])

  abbrev pub enable_webhooks : Bool
  enable_webhooks = if runtime.getenv "ENABLE_WEBHOOKS" == "false" then false else true

  -- from the health check on
  unfoldable pub run_manager : runtime.registry.Manager → Exit × List Step
  unfolding or_exit
  run_manager manager =
      or_exit (added_healthz_check "healthz")
        (changed (runtime.add_healthz_check "healthz" manager))
        λ healthy.
          or_exit (added_readyz_check "readyz")
            (changed (runtime.add_readyz_check "readyz" healthy))
            λ ready. or_exit started_manager (changed (runtime.start ready)) (λ m. (returned, []))

  unfoldable pub set_up_manager : ReconcilerOptions → runtime.registry.Manager → Exit × List Step
  unfolding or_exit
  set_up_manager options manager =
      or_exit (set_up_controller options)
        (changed (setup_with_manager (reconciler e options) runtime.registry manager))
        λ m.
          if enable_webhooks
          then or_exit set_up_webhook
              (changed (setup_webhook_with_manager runtime.versions runtime.complete_webhook m))
              run_manager
          else run_manager m

  -- behind the parsing of the flags
  unfoldable pub main_with : Variables → Exit × List Step
  unfolding or_exit set_up_manager manager_options reconciler_options with_defaults
  main_with variables =
      let v = with_defaults variables in
      or_exit got_config runtime.get_config λ u.
        or_exit (created_manager (manager_options v)) (runtime.new_manager (manager_options v))
          (set_up_manager (reconciler_options v))

  abbrev pub after_parsing : Parsed Variables → Exit × List Step
  after_parsing (parsed v) = main_with v
  after_parsing help = (exited 0, [])
  after_parsing bad_usage = (exited 2, [])

  -- `init`, then `main` with the arguments of the program
  unfoldable pub main : List String → Exit × List Step
  unfolding main_with parse_arguments main_flags default_variables
  main arguments = must (runtime.add_to_scheme client_go) (
      must (runtime.add_to_scheme lifecycle) (
        must (runtime.add_to_scheme system_upgrade) (
          must (runtime.add_to_scheme helm) (
            after_parsing (
              parse_arguments (main_flags runtime.zap_flags) (default_variables runtime.getenv)
                arguments)))))
