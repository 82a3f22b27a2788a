-- ===== src/Lib.antt =====
-- The upgrade controller: a Kubernetes operator that upgrades a cluster, given an UpgradePlan, to a
-- release of the platform, its operating system first, then Kubernetes, then the Helm charts.
--
-- The program's parts and the files that model them:
-- Api.UpgradePlan, Api.ReleaseManifest (api/v1alpha1): the plan with its status and the release
-- manifest, as records with the source's fields; Api.Webhook is upgradeplan_webhook.go.
-- Upgrade.Base, Os, Kubernetes, Container, Helm, ReleaseManifest (internal/upgrade, the files of
-- the same names): the secret, the plans for the System Upgrade Controller (SUC) and the job that
-- an upgrade consists of, and their names.
-- Controller.Reconcile.Loop (internal/controller/upgradeplan_controller.go) has `reconcile`, and
-- Controller.Reconcile, of the same file, `reconcile_delete` and `reconcile_normal`, which goes on
-- to one of the stages: Controller.Os
-- (reconcile_os.go), Controller.Kubernetes (reconcile_kubernetes.go), Controller.Helm
-- (reconcile_helm.go) over Controller.Charts, Releases and Values (helm.go), and
-- Controller.ReleaseManifest (release_manifest.go). Controller.Nodes has the tests on nodes,
-- Controller.Conditions the condition setters, Controller.Stage the ends of branches that the OS
-- and the Kubernetes stage share.
-- Controller.Watches has the map functions and event filters by which changes of the cluster lead
-- back to a plan, and Controller.Watches.Setup their registration. Cmd is cmd/main.go: Cmd.Options
-- has the flags and what the manager and the reconciler get for them, Cmd.Flags Go's package flag.
-- Kube has the third-party objects as far as the code reads or writes them, Errors the errors and
-- panics as values, Prelude the shared helpers, with Go's texts and maps.
--
-- State and effects. A method of the reconciler is a function from a state to a result and a state
-- (Controller.Effects): the cluster, the plan that the method was given by pointer and changes in
-- place, and the calls that it made that change something, the latest first. A result is a value,
-- an error or a panic; a failed call stops the method as the early returns do, and what it did
-- before stays done. `reconcile` starts from the plan that the API server returns. A function of
-- the source that is long is cut where it reads the cluster, into one definition for what follows
-- each read.
--
-- Parameters. Controller.Env collects what the code calls and does not contain: the API server, the
-- Helm storage, the random source, `retry.OnError`, label selectors, conditions, finalizers, the
-- script template, YAML and JSON. A theorem names the documented behaviour that it relies on:
-- ConditionLaws, SelectorLaws, FinalizerLaws, RetryLaws. The webhook's semantic versions are
-- Api.Webhook.Versions. Tests has one concrete environment that meets all the laws.
--
-- Loops are recursions on the list that they run over; no fuel is used. The attempts of
-- `retry.OnError` are counted, five at most. Integers are natural numbers: the code counts nodes and
-- containers and compares generations, and computes with no other integer. A revision or a
-- generation is never negative.
--
-- Cmd has a state of its own: a start is the list of the steps that it takes, with how the program
-- ends.
--
-- Proofs. Controller.Effects.Rules and Keeps have the rules for runs and for invariants of runs,
-- Controller.Stage.Rules and Progress those of the two node stages. Controller.Routing follows the
-- labels of every object from where it is built to the map function of the watches.
-- Controller.Frame says what every method leaves of the plan, and Controller.Progression sets the
-- whole reconciler against an abstract machine with a flag for each stage and chart: a pass is a
-- step of it, and in a cluster where all is done (Settled) the passes that ask for each other end.
--
-- Not modelled: generated code and the registration of the types, logging, and the script of
-- templates/os-upgrade.sh.tpl, which runs on the nodes.
-- `strings.ToLower` is on ASCII letters, which the names of operating systems in a release are.
pub mod Prelude
pub mod Errors
pub mod Kube
pub mod Api
pub mod Upgrade
pub mod Controller
pub mod Cmd
pub mod Tests
