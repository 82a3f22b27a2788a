-- ===== src/Controller/Reconcile/Release.antt =====
-- Rules for `reconcile_release`: a pass over a release, by what it reads first.
use upgrade_controller.Prelude.{String, ◌≡◌, refl, List, Dict, is_empty, Bool-cases, inl, inr}
use upgrade_controller.Errors.{Result, ok, err, panic, Error}
use upgrade_controller.Kube.{Node, condition_true}
use upgrade_controller.Api.UpgradePlan.{
  UpgradePlan, validation_failed_condition, unsupported_architecture_reason,
}
use upgrade_controller.Api.ReleaseManifest.{ReleaseManifestSpec, supported_architectures}
use upgrade_controller.Controller.Env.{Env}
use upgrade_controller.Controller.Effects.{State, CtrlResult, no_requeue, effects}
use upgrade_controller.Controller.Effects.Keeps.{Keeps}
use upgrade_controller.Controller.Frame.{OnPlan}
use upgrade_controller.Controller.Conditions.{set_condition}
use upgrade_controller.Controller.Nodes.{find_unsupported_nodes}
use upgrade_controller.Controller.Reconcile.{fresh_suffix, reconcile_supported, reconcile_release}

-- A new suffix leaves the plan as it is.
pub suffix-OnPlan : (e : Env) {P : UpgradePlan → Type 0} → Keeps (OnPlan P) (fresh_suffix e)
unfolding fresh_suffix
suffix-OnPlan e = record { at = λ s h. record { holds = h.holds } }

-- The pass fails with nothing changed, goes on, or stops at an unsupported node.
pub reconcile_release_rule :
    (e : Env) (release : ReleaseManifestSpec) (s : State e.World)
    (P : Result CtrlResult × State e.World → Type 0)
    → ((error : Error) → P (err error, s))
    → ((text : String) → P (panic text, s))
    → ((nodes : List Node) → P (reconcile_supported e release nodes s))
    → ((text : String)
        → P (
          ok no_requeue,
          record s {
            plan =
                set_condition e.conditions condition_true unsupported_architecture_reason s.plan
                  validation_failed_condition text;
          },
        ))
    → P (reconcile_release e release s)
unfolding effects reconcile_release
reconcile_release_rule e release s P fails panics goes_on blocked =
    go (e.list_nodes s.world)
      (supported_architectures release.components.operating_system.supported_archs) refl refl
  where
    go :
        (listed : Result (List Node)) (known : Result (Dict (Unit {0})))
        → e.list_nodes s.world ≡ listed
        → supported_architectures release.components.operating_system.supported_archs ≡ known
        → P (reconcile_release e release s)
    go (err error) known l k = rw l (fails _)
    go (panic text) known l k = rw l (panics _)
    go (ok nodes) (err error) l k = rw (l, k) (fails _)
    go (ok nodes) (panic text) l k = rw (l, k) (panics _)
    go (ok nodes) (ok supported) l k =
        elim (Bool-cases (is_empty (find_unsupported_nodes nodes supported))) [
          | inl none_left ↦ rw (l, k, none_left) (goes_on nodes)
          | inr some_left ↦ rw (l, k, some_left) (blocked _)
        ]
