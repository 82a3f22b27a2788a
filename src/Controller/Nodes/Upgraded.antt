-- ===== src/Controller/Nodes/Upgraded.antt =====
-- When the upgrade tests pass, stated without their loops.
use upgrade_controller.Prelude.{
  String, ◌≡◌, ◌↔◌, refl, true, false, not, List, [], ◌∷◌, All, keep, arith, eq_iff, Bool-cases,
  inl, inr,
}
use upgrade_controller.Kube.{Node, condition_true}
use upgrade_controller.Controller.Nodes.{
  is_control_plane, node_ready_status, is_settled, is_os_upgraded, is_kubernetes_upgraded,
  control_plane_only_cluster,
}

-- Ready, open to pods, and on the wanted version
pub record IsReadyOn (version_of : Node → String) (version : String) (node : Node) : Type 0 where
  pub ready : node_ready_status node.conditions ≡ condition_true
  pub schedulable : node.unschedulable ≡ false
  pub upgraded : version_of node ≡ version

abbrev pub AllOnOs : String → List Node → Type 0
AllOnOs pretty_name nodes = All (IsReadyOn (λ node. node.os_image) pretty_name) nodes

abbrev pub AllOnKubernetes : String → List Node → Type 0
AllOnKubernetes version nodes = All (IsReadyOn (λ node. node.kubelet_version) version) nodes

pub is_os_upgraded_iff :
    (nodes : List Node) (name : String) → (is_os_upgraded nodes name ≡ true) ↔ AllOnOs name nodes
unfolding is_os_upgraded is_settled
is_os_upgraded_iff [] name = ground arith
is_os_upgraded_iff (node ∷ rest) name =
    ground (arith, eq_iff node.os_image name, is_os_upgraded_iff rest name)

pub is_kubernetes_upgraded_iff :
    (nodes : List Node) (version : String)
    → (is_kubernetes_upgraded nodes version ≡ true) ↔ AllOnKubernetes version nodes
unfolding is_kubernetes_upgraded is_settled
is_kubernetes_upgraded_iff [] version = ground arith
is_kubernetes_upgraded_iff (node ∷ rest) version =
    ground (arith, eq_iff node.kubelet_version version, is_kubernetes_upgraded_iff rest version)

module _ (P : Node → Type 0) where
  -- What holds of the nodes of both roles holds of all.
  pub All_of_roles :
      (nodes : List Node)
      → All P (keep is_control_plane nodes)
      → All P (keep (λ node. not (is_control_plane node)) nodes)
      → All P nodes
  All_of_roles [] c w = tt
  All_of_roles (node ∷ rest) c w = elim (Bool-cases (is_control_plane node)) [
    | inl r ↦ (let c' = rw r at c in let w' = rw r at w in (c'.0, All_of_roles rest c'.1 w'))
    | inr r ↦ (let c' = rw r at c in let w' = rw r at w in (w'.0, All_of_roles rest c' w'.1))
  ]

pub keep-control_plane_only :
    (nodes : List Node)
    → control_plane_only_cluster nodes ≡ true
    → keep is_control_plane nodes ≡ nodes
unfolding control_plane_only_cluster
keep-control_plane_only [] h = refl
keep-control_plane_only (node ∷ rest) h = ground (arith, keep-control_plane_only rest)
