-- ===== src/Controller/Nodes/Drain.antt =====
-- Which nodes are drained, by the numbers of control plane and worker nodes.
use upgrade_controller.Prelude.{
  ℕ, ◌+◌, ◌≡◌, ◌↔◌, ◌⊎◌, ◌<◌, Bool, true, false, Option, none, some, List, [], ◌∷◌, length, keep,
  not, arith,
}
use native.Mathlib.Nat.{zero-add}
use upgrade_controller.Kube.{Node}
use upgrade_controller.Api.UpgradePlan.{UpgradePlan, DisableDrain}
use upgrade_controller.Controller.Nodes.{
  is_control_plane, count_nodes, drain_by_counts, disable_drains, parse_drain_options,
}

abbrev pub control_planes : List Node → ℕ
control_planes nodes = length (keep is_control_plane nodes)

abbrev pub workers : List Node → ℕ
workers nodes = length (keep (λ node. not (is_control_plane node)) nodes)

count_nodes_lem :
    (nodes : List Node) (a b : ℕ)
    → count_nodes nodes (a, b) ≡ (a + control_planes nodes, b + workers nodes)
unfolding count_nodes
count_nodes_lem [] a b = ground arith
count_nodes_lem (node ∷ rest) a b =
    ground (arith, count_nodes_lem rest (a + 1) b, count_nodes_lem rest a (b + 1))

-- what the user disabled
abbrev pub disables_control_plane : Option DisableDrain → Bool
disables_control_plane none = false
disables_control_plane (some d) = d.control_plane

abbrev pub disables_worker : Option DisableDrain → Bool
disables_worker none = false
disables_worker (some d) = d.worker

disable_drains_lem :
    (d : Option DisableDrain) (c w : Bool)
    → ((disable_drains d (c, w)).0 ≡ true ↔ ((c ≡ true) × (disables_control_plane d ≡ false)))
      × ((disable_drains d (c, w)).1 ≡ true ↔ ((w ≡ true) × (disables_worker d ≡ false)))
unfolding disable_drains
disable_drains_lem none c w = ground arith
disable_drains_lem (some d) c w = ground arith

counts_lem :
    (a b : ℕ)
    → ((drain_by_counts (a, b)).0 ≡ true ↔ ((1 < a) ⊎ ((a ≡ 0) × (1 < b))))
      × ((drain_by_counts (a, b)).1 ≡ true ↔ (1 < b))
unfolding drain_by_counts
counts_lem a b = ground arith

combine :
    (d : Option DisableDrain) (a b : ℕ)
    → ((disable_drains d (drain_by_counts (a, b))).0 ≡ true
        ↔ (((1 < a) ⊎ ((a ≡ 0) × (1 < b))) × (disables_control_plane d ≡ false)))
      × ((disable_drains d (drain_by_counts (a, b))).1 ≡ true
          ↔ ((1 < b) × (disables_worker d ≡ false)))
combine d a b =
    let (c, w) = drain_by_counts (a, b) in ground (arith, counts_lem a b, disable_drains_lem d c w)

-- Workers are drained exactly when there are at least two of them and the plan does not disable it;
-- control planes exactly when there are at least two of them, or none and at least two workers, and
-- the plan does not disable it.
pub parse_drain_options_iff :
    (nodes : List Node) (plan : UpgradePlan)
    → ((parse_drain_options nodes plan).0 ≡ true ↔ (
        ((1 < control_planes nodes) ⊎ ((control_planes nodes ≡ 0) × (1 < workers nodes)))
        × (disables_control_plane plan.spec.disable_drain ≡ false)))
      × ((parse_drain_options nodes plan).1 ≡ true
          ↔ ((1 < workers nodes) × (disables_worker plan.spec.disable_drain ≡ false)))
unfolding parse_drain_options
parse_drain_options_iff nodes plan =
    rw (count_nodes_lem nodes 0 0, zero-add, zero-add)
      (combine plan.spec.disable_drain (control_planes nodes) (workers nodes))
