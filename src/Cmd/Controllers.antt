-- ===== src/Cmd/Controllers.antt =====
-- The manager starts only beside the two controllers that it needs.
use upgrade_controller.Prelude.{
  if◌then◌else◌, String, ◌≡◌, refl, Bool, true, false, List, contains_func,
}
use upgrade_controller.Errors.{Result, ok, err, panic, ok_of_in_context, in_context, >>=-eq-ok}
use upgrade_controller.Api.Webhook.{upgrade_plan_validator, setup_webhook_with_manager}
use upgrade_controller.Controller.Env.{Env}
use upgrade_controller.Controller.Watches.Setup.{
  Registry, watches, verify_controllers, complete_if, setup_with_manager,
}
use upgrade_controller.Cmd.Flags.{Parsed, parsed, help, bad_usage}
use upgrade_controller.Cmd.Options.{Variables, with_defaults, manager_options, reconciler_options}
use upgrade_controller.Cmd.{
  enable_webhooks, set_up_webhook, run_manager, client_go, lifecycle, system_upgrade, helm, Runtime,
  Exit, Step, got_config, created_manager, set_up_controller, started_manager, or_exit, changed,
  reconciler, must, set_up_manager, main_with, after_parsing, main,
}
use upgrade_controller.Cmd.Startup.{parsed_arguments}

abbrev is_start : Step → Bool
is_start started_manager = true
is_start _ = false

-- the manager was started
abbrev pub starts : Exit × List Step → Bool
starts (exit, steps) = contains_func is_start steps

or_exit-starts :
    {M : Type 0} (step : Step) (r : Result M) (next : M → Exit × List Step)
    → is_start step ≡ false
    → starts (or_exit step r next) ≡ true
    → (m : M) × (r ≡ ok m) × (starts (next m) ≡ true)
unfolding or_exit
or_exit-starts step (ok m) next other h = (m, refl, rw other at h)
or_exit-starts step (err error) next other h = let f : false ≡ true = rw other at h in cc
or_exit-starts step (panic text) next other h = let f : false ≡ true = rw other at h in cc

-- Both controllers' resource definitions are there, and the watches of the reconciler with these
-- options were registered.
pub record Installed (e : Env) (registry : Registry e.World) (m : registry.Manager) : Type 0 where
  pub helm : registry.get_definition registry.helm_chart_kind m ≡ ok tt
  pub system_upgrade : registry.get_definition registry.suc_plan_kind m ≡ ok tt
  pub registered : (registry.complete (watches e registry) m).0 ≡ ok tt

both_found :
    (e : Env) (registry : Registry e.World) (m : registry.Manager)
    → verify_controllers e registry m ≡ ok tt
    → (registry.get_definition registry.helm_chart_kind m ≡ ok tt)
      × (registry.get_definition registry.suc_plan_kind m ≡ ok tt)
unfolding verify_controllers
both_found e registry m h =
    let (u, first, second) = >>=-eq-ok (in_context _ _) _ h in
    (ok_of_in_context _ _ first, ok_of_in_context _ _ second)

verified :
    (e : Env) (registry : Registry e.World) (m : registry.Manager)
    → (setup_with_manager e registry m).0 ≡ ok tt
    → Installed e registry m
unfolding setup_with_manager
verified e registry m h = go (verify_controllers e registry m) refl h
  where
    go :
        (r : Result (Unit {0}))
        → verify_controllers e registry m ≡ r
        → (complete_if e registry r m).0 ≡ ok tt
        → Installed e registry m
    go (ok u) q done =
        let (h, s) = both_found e registry m q in
        record { helm = h; system_upgrade = s; registered = done }
    go (err error) q done = cc
    go (panic text) q done = cc

ok_of_changed : {M : Type 0} (r : Result (Unit {0}) × M) {m : M} → changed r ≡ ok m → r.0 ≡ ok tt
ok_of_changed (ok u, after) h = refl
ok_of_changed (err error, after) h = cc
ok_of_changed (panic text, after) h = cc

module _ (e : Env) (runtime : Runtime e.World) where
  must-starts :
      (r : Result (Unit {0})) (next : Exit × List Step)
      → starts (must e runtime r next) ≡ true
      → starts next ≡ true
  must-starts (ok u) next h = h
  must-starts (err error) next h = let f : false ≡ true = h in cc
  must-starts (panic text) next h = let f : false ≡ true = h in cc

  webhook-starts :
      (m : runtime.registry.Manager)
      → starts (
          if enable_webhooks e runtime
          then or_exit set_up_webhook
              (changed (setup_webhook_with_manager runtime.versions runtime.complete_webhook m))
              (run_manager e runtime)
          else run_manager e runtime m)
        ≡ true
      → enable_webhooks e runtime ≡ true
      → (runtime.complete_webhook (upgrade_plan_validator runtime.versions) m).0 ≡ ok tt
  webhook-starts m h enabled =
      let registered =
        changed (setup_webhook_with_manager runtime.versions runtime.complete_webhook m) in
      let (m', done, h1) =
        or_exit-starts set_up_webhook registered (run_manager e runtime) refl (rw enabled at h) in
      ok_of_changed _ done

  -- The arguments were parsed, and the manager was made with their options, in a cluster with both
  -- other controllers.
  pub record StartedBeside (arguments : List String) : Type 0 where
    pub variables : Variables
    pub manager : runtime.registry.Manager
    pub parsed_lem : parsed_arguments e runtime arguments ≡ parsed variables
    pub made : runtime.new_manager (manager_options (with_defaults variables)) ≡ ok manager
    pub installed :
        Installed
          (reconciler e (reconciler_options (with_defaults variables)))
          runtime.registry
          manager
    -- unless webhooks are disabled
    pub validated :
        enable_webhooks e runtime ≡ true
        → (m : runtime.registry.Manager) × ((runtime.complete_webhook
              (upgrade_plan_validator runtime.versions)
              m).0
            ≡ ok tt)

  main_with-starts :
      (arguments : List String) (v : Variables)
      → parsed_arguments e runtime arguments ≡ parsed v
      → starts (main_with e runtime v) ≡ true
      → StartedBeside arguments
  unfolding main_with set_up_manager
  main_with-starts arguments v q h =
      let (u, configured, h1) = or_exit-starts got_config runtime.get_config _ refl h in
      let (m, made, h2) =
        or_exit-starts (created_manager (manager_options (with_defaults v)))
          (runtime.new_manager (manager_options (with_defaults v))) _ refl h1 in
      let options = reconciler_options (with_defaults v) in
      let (m', set_up, h3) =
        or_exit-starts (set_up_controller options)
          (changed (setup_with_manager (reconciler e options) runtime.registry m)) _ refl h2 in
      record {
        variables = v;
        manager = m;
        parsed_lem = q;
        made = made;
        installed = verified (reconciler e options) runtime.registry m (ok_of_changed _ set_up);
        validated = λ enabled. (m', webhook-starts m' h3 enabled);
      }

  parsed-starts :
      (arguments : List String) (p : Parsed Variables)
      → parsed_arguments e runtime arguments ≡ p
      → starts (after_parsing e runtime p) ≡ true
      → StartedBeside arguments
  parsed-starts arguments (parsed v) q h = main_with-starts arguments v q h
  parsed-starts arguments help q h = let f : false ≡ true = h in cc
  parsed-starts arguments bad_usage q h = let f : false ≡ true = h in cc

-- Where the program starts its manager, the manager has the options of the program's arguments, the
-- resource definitions of the Helm Controller and of the System Upgrade Controller are in the
-- cluster, all watches of the reconciler were registered, and so was the validator of upgrade
-- plans, unless webhooks are disabled.
pub main-StartedBeside :
    (e : Env) (runtime : Runtime e.World) (arguments : List String)
    → starts (main e runtime arguments) ≡ true
    → StartedBeside e runtime arguments
unfolding main
main-StartedBeside e runtime arguments h = parsed-starts e runtime arguments _ refl (
    must-starts e runtime (runtime.add_to_scheme helm) _ (
      must-starts e runtime (runtime.add_to_scheme system_upgrade) _ (
        must-starts e runtime (runtime.add_to_scheme lifecycle) _
          (must-starts e runtime (runtime.add_to_scheme client_go) _ h))))
