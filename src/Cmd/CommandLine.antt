-- ===== src/Cmd/CommandLine.antt =====
-- Every variable of `main` can be given on the command line.
use upgrade_controller.Prelude.{String, ◌≡◌, refl, Bool, true, false, List, [], ◌∷◌, Dict, lookup}
use upgrade_controller.Cmd.Flags.{
  Flag, parsed, parse_bool, split_value, read_name, read_dashed, read_argument, parse_arguments,
}
use upgrade_controller.Cmd.Options.{Variables, main_flags}

abbrev switch_argument : Bool → String → String → String
switch_argument true on off = on
switch_argument false on off = off

-- the arguments that set every variable
abbrev pub command_line : Variables → List String
command_line v =
    "--metrics-bind-address"
    ∷ v.metrics_addr
    ∷ "--health-probe-bind-address"
    ∷ v.probe_addr
    ∷ switch_argument v.enable_leader_election "--leader-elect" "--leader-elect=false"
    ∷ switch_argument v.secure_metrics "--metrics-secure=true" "--metrics-secure=false"
    ∷ switch_argument v.enable_http2 "--enable-http2" "--enable-http2=0"
    ∷ "-namespace"
    ∷ v.watch_namespace
    ∷ "--release-manifest-image"
    ∷ v.release_manifest_image
    ∷ "--kubectl-image"
    ∷ v.kubectl_image
    ∷ "--kubectl-version"
    ∷ v.kubectl_version
    ∷ "--service-account-name"
    ∷ v.service_account_name
    ∷ []

-- Whatever the defaults and the flags of zap are, the arguments that set every variable are parsed
-- into exactly these variables, empty texts included.
pub parse_arguments-command_line :
    (zap_flags : Dict (Flag Variables)) (defaults v : Variables)
    → parse_arguments (main_flags zap_flags) defaults (command_line v) ≡ parsed v
unfolding parse_arguments main_flags read_argument read_dashed read_name split_value parse_bool
    lookup
parse_arguments-command_line zap_flags defaults v =
    go v.enable_leader_election v.secure_metrics v.enable_http2
  where
    go :
        (leader secure http2 : Bool)
        → (let u = record v {
          enable_leader_election = leader;
          secure_metrics = secure;
          enable_http2 = http2;
        } in
            parse_arguments (main_flags zap_flags) defaults (command_line u) ≡ parsed u)
    go true true true = refl
    go true true false = refl
    go true false true = refl
    go true false false = refl
    go false true true = refl
    go false true false = refl
    go false false true = refl
    go false false false = refl
