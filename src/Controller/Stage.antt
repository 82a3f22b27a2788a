-- ===== src/Controller/Stage.antt =====
-- What `reconcileOS` and `reconcileKubernetes` do at the end of their branches, over the type of
-- their condition.
pub mod Changes
pub mod Progress
pub mod Rules
use upgrade_controller.Prelude.{String, Bool, true, List, if◌then◌else◌}
use upgrade_controller.Kube.{Node, Plan, plan}
use upgrade_controller.Controller.Env.{Env}
use upgrade_controller.Controller.Effects.{
  ◌>>=◌, Eff, CtrlResult, no_requeue, requeue_if, requeue_after_minute, pure, lift, change_plan,
  create_object, ◌>>◌,
}
use upgrade_controller.Controller.Nodes.{find_matching_nodes}
use upgrade_controller.Controller.Conditions.{set_in_progress_condition, set_successful_condition}

module _ (e : Env) (type : String) where
  open e use {World}

  unfoldable pub create_in_progress : String → Plan → Eff World CtrlResult
  unfolding create_object set_in_progress_condition
  create_in_progress message p = do
    change_plan (λ u. set_in_progress_condition e.conditions u type message)
    create_object e (plan p)
    pure no_requeue

  unfoldable pub wait_in_progress : String → Eff World CtrlResult
  unfolding set_in_progress_condition
  wait_in_progress message = do
    change_plan (λ u. set_in_progress_condition e.conditions u type message)
    pure requeue_after_minute

  unfoldable pub finish : Eff World CtrlResult
  unfolding set_successful_condition
  finish = do
    change_plan (λ u. set_successful_condition e.conditions u type "All cluster nodes are upgraded")
    pure (requeue_if true)

  -- the nodes of a plan that exists, tested by `upgraded`; `next` is what runs when they pass
  unfoldable pub check_nodes :
      List Node → Plan → (List Node → Bool) → String → Eff World CtrlResult → Eff World CtrlResult
  check_nodes node_list found upgraded message next = do
    nodes ← lift (find_matching_nodes e node_list found.spec.node_selector)
    if upgraded nodes then next else wait_in_progress message
