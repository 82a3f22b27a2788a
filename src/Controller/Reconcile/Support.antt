-- ===== src/Controller/Reconcile/Support.antt =====
-- A cluster with a node of an architecture that the release does not support.
use upgrade_controller.Prelude.{
  String, ◌≡◌, ◌≢◌, ◌↔◌, ◌⊎◌, refl, sym, ◌∙◌, true, false, none, List, [], ◌∷◌, All, Dict, lookup,
  is_empty, arith, eq_iff, Bool-cases, inl, inr,
}
use upgrade_controller.Errors.{ok}
use upgrade_controller.Kube.{Node, condition_true}
use upgrade_controller.Api.UpgradePlan.{
  validation_failed_condition, unsupported_architecture_reason,
}
use upgrade_controller.Api.ReleaseManifest.{ReleaseManifestSpec, supported_architectures}
use upgrade_controller.Controller.Env.{Env}
use upgrade_controller.Controller.Effects.{State, no_requeue, effects}
use upgrade_controller.Controller.Nodes.{find_unsupported_nodes}
use upgrade_controller.Controller.Conditions.{set_condition}
use upgrade_controller.Controller.Conditions.Laws.{
  ConditionLaws, has_true, condition_of, has_true-set_condition, condition_of-set_condition,
}
use upgrade_controller.Controller.Reconcile.{reconcile_supported, reconcile_release}

-- every node's architecture is in the set
abbrev pub AllSupported : Dict (Unit {0}) → List Node → Type 0
AllSupported supported nodes = All (λ node. lookup node.architecture supported ≢ none) nodes

unsupported_iff :
    (nodes : List Node) (supported : Dict (Unit {0}))
    → (is_empty (find_unsupported_nodes nodes supported) ≡ true) ↔ AllSupported supported nodes
unfolding find_unsupported_nodes
unsupported_iff [] supported = ground arith
unsupported_iff (node ∷ rest) supported = ground (arith, unsupported_iff rest supported)

not_supported :
    (nodes : List Node) (supported : Dict (Unit {0}))
    → is_empty (find_unsupported_nodes nodes supported) ≡ false
    → ¬ AllSupported supported nodes
not_supported nodes supported some_left all_supported =
    let q : true ≡ false = sym ((unsupported_iff nodes supported).1 all_supported) ∙ some_left in
    ground arith

-- What a pass leaves that stops at an unsupported node.
pub record Blocked (e : Env) (before after : State e.World) : Type 0 where
  pub no_call : after.trace ≡ before.trace
  pub reported : has_true e.conditions after.plan validation_failed_condition ≡ true
  pub others :
      (type : String)
      → type ≢ validation_failed_condition
      → condition_of e.conditions after.plan type ≡ condition_of e.conditions before.plan type

blocked :
    (e : Env) (laws : ConditionLaws e.conditions) (s : State e.World) (message : String)
    → Blocked e s (record s {
      plan =
          set_condition e.conditions condition_true unsupported_architecture_reason s.plan
            validation_failed_condition message;
    })
blocked e laws s message = record {
  no_call = refl;
  reported =
      has_true-set_condition e.conditions laws s.plan condition_true unsupported_architecture_reason
        validation_failed_condition message validation_failed_condition;
  others = λ type differs.
      condition_of-set_condition e.conditions laws s.plan condition_true
        unsupported_architecture_reason validation_failed_condition message type
      ∙ ground (arith, eq_iff validation_failed_condition type);
}

-- Where a node of the cluster has an architecture that the release does not support, a pass makes
-- no call, reports the plan's validation as failed, leaves the conditions of the stages and charts
-- as they were, and does not ask to be run again; where no node has, the pass goes on. The nodes can
-- be listed, the release names known architectures, and conditions work as Kubernetes documents.
pub reconcile_release_support :
    (e : Env) (laws : ConditionLaws e.conditions) (release : ReleaseManifestSpec)
    (s : State e.World) (nodes : List Node) (supported : Dict (Unit {0}))
    → e.list_nodes s.world ≡ ok nodes
    → supported_architectures release.components.operating_system.supported_archs ≡ ok supported
    → (AllSupported supported nodes
        × (reconcile_release e release s ≡ reconcile_supported e release nodes s))
      ⊎ ((¬ AllSupported supported nodes)
          × ((reconcile_release e release s).0 ≡ ok no_requeue)
          × Blocked e s (reconcile_release e release s).1)
unfolding effects reconcile_release
reconcile_release_support e laws release s nodes supported listed known =
    elim (Bool-cases (is_empty (find_unsupported_nodes nodes supported))) [
      | inl none_left ↦
          inl ((unsupported_iff nodes supported).0 none_left, rw (listed, known, none_left) refl)
      | inr some_left ↦ inr (
        not_supported nodes supported some_left,
        rw (listed, known, some_left) refl,
        rw (listed, known, some_left) (blocked e laws s _),
      )
    ]
