-- ===== src/Tests/Startup.antt =====
-- Starts of the controller beside the sample cluster, whose manager is a list of what was done.
use upgrade_controller.Prelude.{
  String, ◌≡◌, refl, neq_of_test, Bool, true, List, [], ◌∷◌, All, Dict, if◌then◌else◌, ◌==◌,
}
use upgrade_controller.Prelude as P
use upgrade_controller.Errors.{Result, ok, err, message}
use upgrade_controller.Controller.Reconcile.{reconcile_normal}
use upgrade_controller.Controller.Watches.Setup as S
use upgrade_controller.Controller.Watches.Setup.{Registry}
use upgrade_controller.Cmd as Cmd
use upgrade_controller.Cmd.{
  Runtime, Exit, returned, exited, Step, got_config, created_manager, set_up_controller,
  set_up_webhook, added_healthz_check, main,
}
use upgrade_controller.Cmd.Flags as F
use upgrade_controller.Cmd.Flags.{Parsed, parsed, parse_arguments}
use upgrade_controller.Cmd.Options as O
use upgrade_controller.Cmd.Options.{
  Variables, default_variables, main_flags, manager_options, with_defaults, watch_namespaces,
}
use upgrade_controller.Cmd.Startup.{MainRun, main-MainRun}
use upgrade_controller.Cmd.Controllers.{StartedBeside, main-StartedBeside}
use upgrade_controller.Cmd.CommandLine.{command_line, parse_arguments-command_line}
use upgrade_controller.Cmd.Namespaces.{IsWatched, reconcile_normal-IsWatched}
use upgrade_controller.Tests.Webhook.{growing_versions}
use upgrade_controller.Tests.Cluster.{Cluster, sample_env, sample_env-RetryLaws}
use upgrade_controller.Tests.Samples.{sample_plan, state_of}

abbrev getenv : String → String
getenv name = if name == "KUBECTL_IMAGE" then "registry.example/kubectl" else ""

-- the results of the calls, where those that are listed fail
abbrev call : List String → String → List String → Result (Unit {0}) × List String
call failing name done =
    (if P.contains_func (λ f. f == name) failing then err (message name) else ok tt, name ∷ done)

abbrev runtime : List String → Runtime Cluster
runtime failing = record {
  registry = record {
    Manager = List String;
    get_definition = λ kind m. (call failing kind m).0;
    helm_chart_kind = "helmcharts.helm.cattle.io";
    suc_plan_kind = "plans.upgrade.cattle.io";
    generation_changed = λ event. true;
    complete = λ watches. call failing "controller";
  };
  getenv = getenv;
  zap_flags = [];
  add_to_scheme = λ group. ok tt;
  get_config = ok tt;
  new_manager = λ options. ok [];
  versions = growing_versions;
  complete_webhook = λ validator. call failing "webhook";
  add_healthz_check = call failing;
  add_readyz_check = call failing;
  start = call failing "start";
}

runs : Unit {0}
unfolding P.lookup P.insert F.parse_bool F.split_value F.read_name F.read_dashed F.read_argument
    F.parse_arguments O.default_variables O.main_flags O.watch_namespaces O.with_defaults
    O.manager_options O.reconciler_options S.verify_controllers S.setup_with_manager Cmd.or_exit
    Cmd.run_manager Cmd.set_up_manager Cmd.main_with Cmd.main
runs = tt

abbrev arguments : List String
arguments = "-leader-elect" ∷ "--namespace=upgrades" ∷ []

-- a run that fails at the second check
ready_fails : (main sample_env (runtime ("readyz" ∷ [])) arguments).0 ≡ exited 1
unfolding runs
ready_fails = refl

all_succeeds : (main sample_env (runtime []) arguments).0 ≡ returned
unfolding runs
all_succeeds = refl

no_helm_controller :
    (main sample_env (runtime ("helmcharts.helm.cattle.io" ∷ [])) arguments).0 ≡ exited 1
unfolding runs
no_helm_controller = refl

bad_flag : (main sample_env (runtime []) ("--enable-http2=yes" ∷ [])).0 ≡ exited 2
unfolding runs
bad_flag = refl

main-MainRun_example :
    MainRun sample_env
      (runtime ("readyz" ∷ []))
      arguments
      (main sample_env (runtime ("readyz" ∷ [])) arguments)
main-MainRun_example = main-MainRun sample_env (runtime ("readyz" ∷ [])) arguments

main-StartedBeside_example : StartedBeside sample_env (runtime []) arguments
unfolding runs
main-StartedBeside_example = main-StartedBeside sample_env (runtime []) arguments refl

abbrev variables : Variables
variables = record {
  metrics_addr = ":8080";
  enable_leader_election = true;
  probe_addr = ":8081";
  secure_metrics = true;
  enable_http2 = Bool.false;
  watch_namespace = "default";
  release_manifest_image = "";
  kubectl_image = "registry.example/kubectl";
  kubectl_version = "1.31";
  service_account_name = "upgrade-controller";
}

parse_arguments-command_line_example :
    parse_arguments (main_flags []) (default_variables getenv) (command_line variables)
    ≡ parsed variables
parse_arguments-command_line_example =
    parse_arguments-command_line [] (default_variables getenv) variables

reconcile_normal-IsWatched_example :
    All
      (IsWatched (manager_options variables).default_namespaces)
      (reconcile_normal sample_env (state_of sample_plan)).1.trace
reconcile_normal-IsWatched_example =
    reconcile_normal-IsWatched variables sample_env sample_env-RetryLaws (state_of sample_plan)
      (neq_of_test "default" "" refl) refl (neq_of_test "upgrade" "" refl) refl
