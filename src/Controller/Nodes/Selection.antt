-- ===== src/Controller/Nodes/Selection.antt =====
-- What `findMatchingNodes` answers for the two selectors of the plans.
use upgrade_controller.Prelude.{
  String, ◌≡◌, refl, Bool, false, not, ◌==◌, Option, none, some, List, [], ◌∷◌, lookup, or_empty,
  keep, arith, fun_ext,
}
use upgrade_controller.Errors.{ok}
use upgrade_controller.Kube.{Node, LabelSelector, Plan, object_key}
use upgrade_controller.Upgrade.Base.{control_plane_label, control_plane_selector, worker_selector}
use upgrade_controller.Controller.Env.{Env}
use upgrade_controller.Controller.Nodes.{
  is_control_plane, matching_nodes_or_error, find_matching_nodes,
}

-- a selector of one requirement with one value
abbrev pub single : String → String → String → LabelSelector
single operator key value = record {
  match_labels = [];
  match_expressions = record { key = key; operator = operator; values = value ∷ [] } ∷ [];
}

abbrev pub has_value : String → Option String → Bool
has_value value none = false
has_value value (some v) = v == value

-- At the label of control planes, which is a valid one, `In` selects the labels that have the value,
-- `NotIn` all others.
pub record SelectorLaws (e : Env) : Type 0 where
  pub in_lem :
      e.label_selector_as_selector (some (single "In" control_plane_label "true"))
      ≡ ok (λ labels. has_value "true" (lookup control_plane_label labels))
  pub not_in_lem :
      e.label_selector_as_selector (some (single "NotIn" control_plane_label "true"))
      ≡ ok (λ labels. not (has_value "true" (lookup control_plane_label labels)))

is_control_plane_lem :
    is_control_plane ≡ (λ node. has_value "true" (lookup control_plane_label node.labels))
unfolding is_control_plane
is_control_plane_lem = fun_ext λ node. has_label (lookup control_plane_label node.labels)
  where
    has_label : (o : Option String) → (or_empty o == "true") ≡ has_value "true" o
    has_label none = refl
    has_label (some v) = refl

module _ (e : Env) (laws : SelectorLaws e) where
  pub find_control_planes :
      (nodes : List Node)
      → find_matching_nodes e nodes (some control_plane_selector)
        ≡ matching_nodes_or_error (some control_plane_selector) (keep is_control_plane nodes)
  unfolding find_matching_nodes control_plane_selector
  find_control_planes nodes = rw (laws.in_lem, is_control_plane_lem) refl

  pub find_workers :
      (nodes : List Node)
      → find_matching_nodes e nodes (some worker_selector)
        ≡ matching_nodes_or_error
            (some worker_selector)
            (keep (λ node. not (is_control_plane node)) nodes)
  unfolding find_matching_nodes worker_selector
  find_workers nodes = rw (laws.not_in_lem, is_control_plane_lem) refl

-- A search that succeeds found the nodes that it kept.
pub matching_nodes-eq :
    (s : Option LabelSelector) (kept nodes : List Node)
    → matching_nodes_or_error s kept ≡ ok nodes
    → kept ≡ nodes
unfolding matching_nodes_or_error
matching_nodes-eq s (node ∷ rest) nodes h = ground arith
matching_nodes-eq (some s) [] nodes h = cc
matching_nodes-eq none [] nodes h = cc

-- The plan that is stored under the key of a plan has that plan's selector.
abbrev pub KeepsSelector : (e : Env) → e.World → Plan → Type 0
KeepsSelector e w p =
    (found : Plan)
    → e.get_plan (object_key p.metadata) w ≡ ok found
    → found.spec.node_selector ≡ p.spec.node_selector

module _ (e : Env) (laws : SelectorLaws e) (nodes : List Node) where
  pub control_planes-eq :
      (o : Option LabelSelector) (found : List Node)
      → o ≡ some control_plane_selector
      → find_matching_nodes e nodes o ≡ ok found
      → keep is_control_plane nodes ≡ found
  control_planes-eq o found q h =
      matching_nodes-eq _ _ found (rw (q, find_control_planes e laws nodes) at h)

  pub workers-eq :
      (o : Option LabelSelector) (found : List Node)
      → o ≡ some worker_selector
      → find_matching_nodes e nodes o ≡ ok found
      → keep (λ node. not (is_control_plane node)) nodes ≡ found
  workers-eq o found q h = matching_nodes-eq _ _ found (rw (q, find_workers e laws nodes) at h)
