-- ===== src/Controller/Os/Order.antt =====
-- The order of the OS stage: secret, control plane plan, worker plan.
use upgrade_controller.Prelude.{
  String, ◌≡◌, ◌∙◌, ◌⊎◌, refl, inl, inr, true, some, List, ◌∷◌, arith, keep, lookup,
}
use upgrade_controller.Errors.{ok, in_context}
use upgrade_controller.Kube.{Node, Secret, Plan, plan, secret, object_key}
use upgrade_controller.Api.UpgradePlan.{UpgradePlan}
use upgrade_controller.Api.ReleaseManifest.{OperatingSystem}
use upgrade_controller.Upgrade.Base.{
  plan_identifier_labels, base_upgrade_plan, control_plane_selector, worker_selector,
}
use upgrade_controller.Upgrade.Os.{
  os_upgrade_secret, os_control_plane_plan, os_worker_plan, base_os_plan,
}
use upgrade_controller.Controller.Env.{Env}
use upgrade_controller.Controller.Effects.{
  effects, Call, created, State, create_object, pure, no_requeue, ◌>>◌,
}
use upgrade_controller.Controller.Effects.Rules.{if_found_rule, lift_rule}
use upgrade_controller.Controller.Effects.Changes.{changes, changes-create_object}
use upgrade_controller.Controller.Nodes.{find_matching_nodes, is_control_plane, is_os_upgraded}
use upgrade_controller.Controller.Nodes.Selection.{SelectorLaws, KeepsSelector, control_planes-eq}
use upgrade_controller.Controller.Nodes.Upgraded.{AllOnOs, is_os_upgraded_iff}
use upgrade_controller.Controller.Stage.{create_in_progress, wait_in_progress, finish, check_nodes}
use upgrade_controller.Controller.Stage.Changes.{changes-create_in_progress}
use upgrade_controller.Controller.Os.{
  os_stage, reconcile_os_workers, reconcile_os_control_plane, os_plans, reconcile_os_plans,
  reconcile_os_secret, reconcile_os,
}

-- What one pass over the stage changes: nothing, or one new object. A worker plan comes only when
-- every control plane node is ready on the release's OS.
pub data OsPass (os : OperatingSystem) (nodes : List Node) (before after : List Call) : Type 0 where
  no_change : after ≡ before → OsPass os nodes before after
  new_secret : (o : Secret) → after ≡ created (secret o) ∷ before → OsPass os nodes before after
  new_control_plane_plan :
      (o : Plan)
      → after ≡ created (plan o) ∷ before
      → lookup "os-upgrade" o.metadata.labels ≡ some "control-plane"
      → OsPass os nodes before after
  new_worker_plan :
      (o : Plan)
      → after ≡ created (plan o) ∷ before
      → lookup "os-upgrade" o.metadata.labels ≡ some "worker"
      → AllOnOs os.pretty_name (keep is_control_plane nodes)
      → OsPass os nodes before after

module _ (e : Env) (os : OperatingSystem) (nodes : List Node) (s : State e.World) where
  workers_changes :
      (wp : Plan)
      → (changes (reconcile_os_workers e os nodes wp s).1.trace ≡ changes s.trace)
        ⊎ (changes (reconcile_os_workers e os nodes wp s).1.trace
            ≡ created (plan wp) ∷ changes s.trace)
  unfolding effects reconcile_os_workers wait_in_progress finish check_nodes
  workers_changes wp =
      ground (arith, changes-create_in_progress e os_stage "Worker nodes are being upgraded" s wp)

  control_plane_changes :
      (wp found : Plan)
      → (changes (reconcile_os_control_plane e os nodes wp found s).1.trace ≡ changes s.trace)
        ⊎ (ns : List Node) × (find_matching_nodes e nodes found.spec.node_selector ≡ ok ns)
          × (is_os_upgraded ns os.pretty_name ≡ true)
          × (changes (reconcile_os_control_plane e os nodes wp found s).1.trace
              ≡ created (plan wp) ∷ changes s.trace)
  unfolding effects reconcile_os_control_plane wait_in_progress finish check_nodes
  control_plane_changes wp found = ground (arith, workers_changes wp)

module _ (owner : UpgradePlan) (rv : String) (os : OperatingSystem) (nodes : List Node)
    (stored : Secret) where
  pub os_plans_labels :
      (lookup "os-upgrade" ((os_plans owner rv os nodes stored).0).metadata.labels
        ≡ some "control-plane")
      × (lookup "os-upgrade" ((os_plans owner rv os nodes stored).1).metadata.labels
          ≡ some "worker")
  unfolding effects os_plans os_control_plane_plan os_worker_plan base_os_plan base_upgrade_plan
      plan_identifier_labels lookup
  os_plans_labels = (refl, refl)

  pub os_plans_selectors :
      (((os_plans owner rv os nodes stored).0).spec.node_selector ≡ some control_plane_selector)
      × (((os_plans owner rv os nodes stored).1).spec.node_selector ≡ some worker_selector)
  unfolding effects os_plans os_control_plane_plan os_worker_plan
  os_plans_selectors = (refl, refl)

module _ (e : Env) (laws : SelectorLaws e) (os : OperatingSystem) (nodes : List Node)
    (s : State e.World) where
  control_plane_pass :
      (wp cp found : Plan)
      → lookup "os-upgrade" wp.metadata.labels ≡ some "worker"
      → cp.spec.node_selector ≡ some control_plane_selector
      → found.spec.node_selector ≡ cp.spec.node_selector
      → OsPass os nodes
          (changes s.trace)
          (changes (reconcile_os_control_plane e os nodes wp found s).1.trace)
  control_plane_pass wp cp found l c f = elim (control_plane_changes e os nodes s wp found) [
    | inl same ↦ OsPass.no_change same
    | inr (ns, found_ns, ready, made) ↦ OsPass.new_worker_plan wp made l (
        rw (control_planes-eq e laws nodes found.spec.node_selector ns (f ∙ c) found_ns)
          ((is_os_upgraded_iff ns os.pretty_name).0 ready))
  ]

  plans_pass :
      (owner : UpgradePlan) (rv : String) (stored : Secret)
      → KeepsSelector e s.world (os_plans owner rv os nodes stored).0
      → OsPass os nodes
          (changes s.trace)
          (changes (reconcile_os_plans e owner rv os nodes stored s).1.trace)
  unfolding effects reconcile_os_plans
  plans_pass owner rv stored keeps =
      let plans = os_plans owner rv os nodes stored in
      let (cp_label, wp_label) = os_plans_labels owner rv os nodes stored in
      if_found_rule (λ r. OsPass os nodes (changes s.trace) (changes r.1.trace))
        (e.get_plan (object_key (plans.0).metadata))
        (create_in_progress e os_stage "Control plane nodes are being upgraded" plans.0)
        (reconcile_os_control_plane e os nodes plans.1) s
        (λ error q missing.
          OsPass.new_control_plane_plan plans.0
            (changes-create_in_progress e os_stage "Control plane nodes are being upgraded" s
              plans.0)
            cp_label)
        (λ found q.
          control_plane_pass plans.1 plans.0 found wp_label
            (os_plans_selectors owner rv os nodes stored).0 (keeps found q))
        (λ error. OsPass.no_change refl) (λ p. OsPass.no_change refl)

  secret_pass :
      (owner : UpgradePlan) (rv : String) (made : Secret)
      → ((stored : Secret) → KeepsSelector e s.world (os_plans owner rv os nodes stored).0)
      → OsPass os nodes
          (changes s.trace)
          (changes (reconcile_os_secret e owner rv os nodes made s).1.trace)
  unfolding effects reconcile_os_secret
  secret_pass owner rv made keeps =
      if_found_rule (λ r. OsPass os nodes (changes s.trace) (changes r.1.trace))
        (e.get_secret (object_key made.metadata)) (create_object e (secret made) >> pure no_requeue)
        (reconcile_os_plans e owner rv os nodes) s
        (λ error q missing.
          OsPass.new_secret made (ground (arith, changes-create_object e (secret made) s)))
        (λ stored q. plans_pass owner rv stored (keeps stored)) (λ error. OsPass.no_change refl)
        (λ p. OsPass.no_change refl)

-- One pass over the OS stage changes nothing, or creates one object: the secret, the control plane
-- plan, or the worker plan, and the worker plan only when every control plane node of the list is
-- ready, schedulable and on the release's OS image. It is assumed that the selectors of the plans
-- select as Kubernetes documents, and that the stored control plane plan has the selector that the
-- controller gave it.
pub reconcile_os-OsPass :
    (e : Env) (laws : SelectorLaws e) (rv : String) (os : OperatingSystem) (nodes : List Node)
    (s : State e.World)
    → ((stored : Secret) → KeepsSelector e s.world (os_plans s.plan rv os nodes stored).0)
    → OsPass os nodes (changes s.trace) (changes (reconcile_os e rv os nodes s).1.trace)
unfolding effects reconcile_os
reconcile_os-OsPass e laws rv os nodes s keeps =
    lift_rule (λ r. OsPass os nodes (changes s.trace) (changes r.1.trace))
      (in_context "generating OS upgrade secret" (
        os_upgrade_secret e.execute_template s.plan.status.suc_name_suffix os
          (plan_identifier_labels s.plan.metadata.name s.plan.metadata.namespace)))
      (reconcile_os_secret e s.plan rv os nodes) s
      (λ made q. secret_pass e laws os nodes s s.plan rv made keeps)
      (λ error. OsPass.no_change refl) (λ p. OsPass.no_change refl)
