-- ===== src/Cmd/Namespaces.antt =====
-- What the reconciler creates is in the namespaces that the manager's cache holds.
use upgrade_controller.Prelude.{
  String, ◌≡◌, ◌≢◌, refl, List, [], ◌∷◌, All, Dict, lookup, lookup-insert, some, ◌==◌, arith,
  eq_iff, false, if◌then◌else◌,
}
use upgrade_controller.Kube.{metadata, ObjectMeta}
use upgrade_controller.Upgrade.Base.{kube_system_namespace, suc_namespace}
use upgrade_controller.Controller.Env.{Env}
use upgrade_controller.Controller.Effects.{
  Call, created, updated_plan, updated_status, updated_chart, deleted_plan, deleted_secret, event,
  State,
}
use upgrade_controller.Controller.Effects.Keeps.{RetryLaws}
use upgrade_controller.Controller.Routing.{Routes, InScope}
use upgrade_controller.Controller.Routing.Normal.{reconcile_normal-Routed}
use upgrade_controller.Controller.Reconcile.{reconcile_normal}
use upgrade_controller.Cmd.Options.{Variables, watch_namespaces, manager_options}

-- the namespace of an object that is created is one of these
abbrev pub IsWatched : Dict (Unit {0}) → Call → Type 0
IsWatched namespaces (created o) = lookup (metadata o).namespace namespaces ≡ some tt
IsWatched namespaces _ = Unit

-- With a namespace given, the cache holds it and the two of the other controllers.
lookup-watch_namespaces :
    (v : Variables) (namespace : String)
    → v.watch_namespace ≢ ""
    → lookup namespace (watch_namespaces v) ≡ (
        if suc_namespace == namespace
        then some tt
        else if kube_system_namespace == namespace
        then some tt
        else lookup namespace ((v.watch_namespace, tt) ∷ []))
unfolding watch_namespaces
lookup-watch_namespaces v namespace given =
    let test : (v.watch_namespace == "") ≡ false = ground (arith, eq_iff v.watch_namespace "") in
    rw
      (
        test,
        lookup-insert suc_namespace namespace tt _,
        lookup-insert kube_system_namespace namespace tt _,
      )
      refl

InScope-is_watched :
    (v : Variables) (m : ObjectMeta) (namespace : String)
    → v.watch_namespace ≢ ""
    → m.namespace ≡ v.watch_namespace
    → InScope m namespace
    → lookup namespace (watch_namespaces v) ≡ some tt
unfolding lookup
InScope-is_watched v m namespace given own scope = rw (lookup-watch_namespaces v namespace given) (
    ground (
      arith,
      eq_iff suc_namespace namespace,
      eq_iff kube_system_namespace namespace,
      eq_iff v.watch_namespace namespace,
    ))

Routes-IsWatched :
    (v : Variables) (m : ObjectMeta) (calls : List Call)
    → v.watch_namespace ≢ ""
    → m.namespace ≡ v.watch_namespace
    → All (Routes m) calls
    → All (IsWatched (watch_namespaces v)) calls
Routes-IsWatched v m [] given own h = tt
Routes-IsWatched v m (created o ∷ calls) given own (first, h) =
    (InScope-is_watched v m _ given own first.in_scope, Routes-IsWatched v m calls given own h)
Routes-IsWatched v m (updated_chart c ∷ calls) given own (first, h) =
    (tt, Routes-IsWatched v m calls given own h)
Routes-IsWatched v m (event ev ∷ calls) given own (first, h) =
    (tt, Routes-IsWatched v m calls given own h)
Routes-IsWatched v m (updated_plan p ∷ calls) given own (first, h) = elim first [ ]
Routes-IsWatched v m (updated_status p ∷ calls) given own (first, h) = elim first [ ]
Routes-IsWatched v m (deleted_plan p ∷ calls) given own (first, h) = elim first [ ]
Routes-IsWatched v m (deleted_secret x ∷ calls) given own (first, h) = elim first [ ]

-- Where the controller is given a namespace to watch, a pass over a plan of that namespace creates
-- objects only in namespaces that the manager's cache holds, so that the reconciler can read back
-- what it creates. The plan's name is not empty, and `retry.OnError` makes at least one attempt and
-- at most as many as it is given.
pub reconcile_normal-IsWatched :
    (v : Variables) (e : Env) (retry : RetryLaws e) (s : State e.World)
    → v.watch_namespace ≢ ""
    → s.plan.metadata.namespace ≡ v.watch_namespace
    → s.plan.metadata.name ≢ ""
    → s.trace ≡ []
    → All (IsWatched (manager_options v).default_namespaces) (reconcile_normal e s).1.trace
unfolding manager_options
reconcile_normal-IsWatched v e retry s given own named start =
    Routes-IsWatched v s.plan.metadata _ given own (reconcile_normal-Routed e retry s named start)
