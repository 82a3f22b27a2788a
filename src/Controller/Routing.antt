-- ===== src/Controller/Routing.antt =====
-- From a changed object back to its upgrade plan: the labels that the reconciler sets are those by
-- which the watches find the plan to reconcile.
pub mod Labels
pub mod Stages
pub mod Charts
pub mod Normal
pub mod Jobs
use upgrade_controller.Prelude.{
  String, ◌≡◌, ◌≢◌, ◌⊎◌, ◌∙◌, List, [], ◌∷◌, All, Dict, lookup, some, arith, eq_iff,
}
use upgrade_controller.Errors.{Result}
use upgrade_controller.Kube.{ObjectMeta, NamespacedName, Object, metadata}
use upgrade_controller.Api.UpgradePlan.{UpgradePlan}
use upgrade_controller.Upgrade.Base.{
  plan_name_label, plan_namespace_label, kube_system_namespace, suc_namespace,
}
use upgrade_controller.Controller.Env.{Env}
use upgrade_controller.Controller.Effects.{
  Call, created, updated_chart, event, State, effects, Eff, the_plan, change_plan, act,
  create_object, eventf, ◌>>=◌,
}
use upgrade_controller.Controller.Effects.Keeps.{Keeps, Keeps-then}
use upgrade_controller.Controller.Watches.{find_upgrade_plan_from_label}

abbrev pub request_of : ObjectMeta → NamespacedName
request_of m = record { namespace = m.namespace; name = m.name }

-- The labels lead to exactly the plan with this metadata.
abbrev pub LeadsTo : ObjectMeta → Dict String → Type 0
LeadsTo m labels = find_upgrade_plan_from_label labels ≡ request_of m ∷ []

-- the namespaces in which a pass for the plan creates objects
abbrev pub InScope : ObjectMeta → String → Type 0
InScope m namespace =
    (namespace ≡ m.namespace) ⊎ (namespace ≡ kube_system_namespace) ⊎ (namespace ≡ suc_namespace)

-- The object leads to the plan, and is in one of its namespaces.
pub record Placed (m meta : ObjectMeta) : Type 0 where
  pub leads : LeadsTo m meta.labels
  pub in_scope : InScope m meta.namespace

-- What a pass may do: create objects that lead to the plan in the plan's own namespace, in that of
-- the Kubernetes system or in that of the SUC, update charts that lead to it, and send events.
abbrev pub Routes : ObjectMeta → Call → Type 0
Routes m (created o) = Placed m (metadata o)
Routes m (updated_chart c) = LeadsTo m c.metadata.labels
Routes m (event ev) = Unit
Routes m _ = ⊥

pub record Routed {W : Type 0} (m : ObjectMeta) (s : State W) : Type 0 where
  pub kept : s.plan.metadata ≡ m
  pub routed : All (Routes m) s.trace

pub LeadsTo-of_lookups :
    (m : ObjectMeta) (labels : Dict String)
    → m.name ≢ ""
    → lookup plan_name_label labels ≡ some m.name
    → lookup plan_namespace_label labels ≡ some m.namespace
    → LeadsTo m labels
unfolding find_upgrade_plan_from_label
LeadsTo-of_lookups m labels named n ns = ground (arith, eq_iff m.name "")

module _ (e : Env) (m : ObjectMeta) where
  pub act-Routed :
      (call : Call) (f : e.World → Result (Unit {0}) × e.World)
      → Routes m call
      → Keeps (Routed m) (act call f)
  unfolding effects
  act-Routed call f routes = record {
    at = λ s h. record { kept = h.kept; routed = (routes, h.routed) };
  }

  pub change_plan-Routed :
      (f : UpgradePlan → UpgradePlan)
      → ((p : UpgradePlan) → (f p).metadata ≡ p.metadata)
      → Keeps (Routed m) (change_plan {W = e.World} f)
  unfolding effects
  change_plan-Routed f same = record {
    at = λ s h. record { kept = same s.plan ∙ h.kept; routed = h.routed };
  }

  -- The plan that a method starts from has the metadata.
  pub the_plan-Routed :
      {A : Type 0} (k : UpgradePlan → Eff e.World A)
      → ((owner : UpgradePlan) → owner.metadata ≡ m → Keeps (Routed m) (k owner))
      → Keeps (Routed m) (the_plan >>= k)
  unfolding effects
  the_plan-Routed k kk = record { at = λ s h. (kk s.plan h.kept).at s h }

  pub eventf-Routed :
      (type reason message : String) → Keeps (Routed m) (eventf {W = e.World} type reason message)
  unfolding effects
  eventf-Routed type reason message = record {
    at = λ s h. record { kept = h.kept; routed = (tt, h.routed) };
  }

  pub create_object-Routed :
      (o : Object) → Placed m (metadata o) → Keeps (Routed m) (create_object e o)
  unfolding create_object
  create_object-Routed o leads =
      Keeps-then _ _ (act-Routed (created o) (e.create o) leads) (eventf-Routed _ _ _)
