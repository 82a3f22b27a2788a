-- ===== src/Controller/Stage/Rules.antt =====
-- The rule of `check_nodes`.
use upgrade_controller.Prelude.{
  String, ◌≡◌, refl, Bool, true, List, Bool-cases, inl, inr, if◌then◌else◌,
}
use upgrade_controller.Errors.{Result, ok, err, panic, Error}
use upgrade_controller.Kube.{Node, Plan}
use upgrade_controller.Controller.Env.{Env}
use upgrade_controller.Controller.Effects.{effects, Eff, State, CtrlResult, lift, ◌>>=◌}
use upgrade_controller.Controller.Nodes.{find_matching_nodes}
use upgrade_controller.Controller.Stage.{wait_in_progress, check_nodes}

module _ (e : Env) (type : String) (C : Result CtrlResult × State e.World → Type 0) where
  pub check_nodes_rule :
      (node_list : List Node) (found : Plan) (upgraded : List Node → Bool) (message : String)
      (next : Eff e.World CtrlResult) (s : State e.World)
      → ((ns : List Node)
          → find_matching_nodes e node_list found.spec.node_selector ≡ ok ns
          → upgraded ns ≡ true
          → C (next s))
      → C (wait_in_progress e type message s)
      → ((error : Error) → C (err error, s))
      → ((p : String) → C (panic p, s))
      → C (check_nodes e type node_list found upgraded message next s)
  unfolding effects check_nodes
  check_nodes_rule node_list found upgraded message next s on_pass on_wait on_error on_panic =
      go (find_matching_nodes e node_list found.spec.node_selector) refl
    where
      go :
          (r : Result (List Node))
          → find_matching_nodes e node_list found.spec.node_selector ≡ r
          → C ((lift r >>= λ ns. if upgraded ns then next else wait_in_progress e type message) s)
      go (err error) q = on_error error
      go (panic p) q = on_panic p
      go (ok ns) q = elim (Bool-cases (upgraded ns)) [
        | inl pass ↦ rw pass (on_pass ns q pass)
        | inr wait ↦ rw wait on_wait
      ]
