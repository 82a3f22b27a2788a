-- ===== src/Controller/Nodes.antt =====
-- The tests on nodes: `parseDrainOptions` of upgradeplan_controller.go, `findMatchingNodes`,
-- `isKubernetesUpgraded` and `controlPlaneOnlyCluster` of reconcile_kubernetes.go, and `isOSUpgraded`
-- and `findUnsupportedNodes` of reconcile_os.go.
pub mod Drain
pub mod Upgraded
pub mod Selection
use upgrade_controller.Prelude.{
  ℕ, ◌+◌, String, ◌++◌, Bool, true, false, not, ◌&&◌, Option, none, some, List, [], ◌∷◌, ◌==◌, Dict,
  lookup, or_empty, keep, ltb, leb, nat_eq, show_list, if◌then◌else◌,
}
use upgrade_controller.Errors.{Result, ok, err, panic, message, in_context, ◌>>=◌}
use upgrade_controller.Kube.{
  Node, StatusCondition, ConditionStatus, other_status, is_true, LabelSelector, Requirement,
}
use upgrade_controller.Api.UpgradePlan.{UpgradePlan, DisableDrain}
use upgrade_controller.Upgrade.Base.{control_plane_label}
use upgrade_controller.Controller.Env.{Env}

-- `node.Labels[upgrade.ControlPlaneLabel] == "true"`
unfoldable pub is_control_plane : Node → Bool
unfolding lookup
is_control_plane node = or_empty (lookup control_plane_label node.labels) == "true"

-- the loop of `parseDrainOptions`: the control planes and the workers
unfoldable pub count_nodes : List Node → ℕ × ℕ → ℕ × ℕ
count_nodes [] counts = counts
count_nodes (node ∷ rest) (control_planes, workers) =
    count_nodes rest (
      if is_control_plane node
      then (control_planes + 1, workers)
      else (control_planes, workers + 1))

-- its `switch`
unfoldable pub drain_by_counts : ℕ × ℕ → Bool × Bool
drain_by_counts (control_planes, workers) =
    if ltb 1 control_planes && leb workers 1
    then (true, false)
    else if nat_eq control_planes 1 && ltb 1 workers
    then (false, true)
    else if leb control_planes 1 && leb workers 1
    then (false, false)
    else (true, true)

unfoldable pub disable_drains : Option DisableDrain → Bool × Bool → Bool × Bool
disable_drains none drains = drains
disable_drains (some d) (control_plane, worker) =
    (if d.control_plane then false else control_plane, if d.worker then false else worker)

unfoldable pub parse_drain_options : List Node → UpgradePlan → Bool × Bool
parse_drain_options node_list plan =
    disable_drains plan.spec.disable_drain (drain_by_counts (count_nodes node_list (0, 0)))

-- the loop over a node's conditions, up to the first of type Ready
unfoldable pub node_ready_status : List StatusCondition → ConditionStatus
node_ready_status [] = other_status ""
node_ready_status (c ∷ rest) =
    let later = node_ready_status rest in if c.type == "Ready" then c.status else later

-- what both upgrade tests ask of a node beside its version
unfoldable pub is_settled : Node → Bool
is_settled node = is_true (node_ready_status node.conditions) && not node.unschedulable

unfoldable pub is_os_upgraded : List Node → String → Bool
is_os_upgraded [] pretty_name = true
is_os_upgraded (node ∷ rest) pretty_name =
    let later = is_os_upgraded rest pretty_name in
    if is_settled node && node.os_image == pretty_name then later else false

unfoldable pub is_kubernetes_upgraded : List Node → String → Bool
is_kubernetes_upgraded [] version = true
is_kubernetes_upgraded (node ∷ rest) version =
    let later = is_kubernetes_upgraded rest version in
    if is_settled node && node.kubelet_version == version then later else false

unfoldable pub control_plane_only_cluster : List Node → Bool
control_plane_only_cluster [] = true
control_plane_only_cluster (node ∷ rest) =
    let later = control_plane_only_cluster rest in if is_control_plane node then later else false

abbrev is_missing : Option (Unit {0}) → Bool
is_missing none = true
is_missing (some u) = false

unfoldable pub find_unsupported_nodes : List Node → Dict (Unit {0}) → List String
unfolding lookup
find_unsupported_nodes [] supported = []
find_unsupported_nodes (node ∷ rest) supported =
    let later = find_unsupported_nodes rest supported in
    if is_missing (lookup node.architecture supported) then node.name ∷ later else later

-- `%s` of the selector's labels and requirements
entries : Dict String → List String
entries [] = []
entries ((k, v) ∷ m) = (k ++ ":" ++ v) ∷ entries m

requirements : List Requirement → List String
requirements [] = []
requirements (r ∷ rest) =
    ("{" ++ r.key ++ " " ++ r.operator ++ " " ++ show_list r.values ++ "}") ∷ requirements rest

-- The error reads the selector's fields, which is a panic where the pointer is nil.
unfoldable pub matching_nodes_or_error : Option LabelSelector → List Node → Result (List Node)
unfolding entries requirements
matching_nodes_or_error selector (node ∷ rest) = ok (node ∷ rest)
matching_nodes_or_error (some selector) [] = err (
    message (
      "none of the nodes match label selector: MatchLabels: map"
      ++ show_list (entries selector.match_labels)
      ++ ", MatchExpressions: "
      ++ show_list (requirements selector.match_expressions)))
matching_nodes_or_error none [] = panic "invalid memory address or nil pointer dereference"

unfoldable pub find_matching_nodes :
    (e : Env) → List Node → Option LabelSelector → Result (List Node)
unfolding matching_nodes_or_error
find_matching_nodes e node_list node_selector = do
  selector ← in_context "parsing node selector" (e.label_selector_as_selector node_selector)
  matching_nodes_or_error node_selector (keep (λ node. selector node.labels) node_list)
