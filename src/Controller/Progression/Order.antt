-- ===== src/Controller/Progression/Order.antt =====
-- The order of the stages holds of every plan that passes and edits lead to.
use upgrade_controller.Prelude.{◌≡◌, sym, ◌∙◌, true, false}
use upgrade_controller.Api.UpgradePlan.{UpgradePlan}
use upgrade_controller.Api.ReleaseManifest.{ReleaseManifestSpec}
use upgrade_controller.Controller.Env.{Env}
use upgrade_controller.Controller.Effects.{State}
use upgrade_controller.Controller.Conditions.Laws.{ConditionLaws}
use upgrade_controller.Controller.Reconcile.{reconcile_release}
use upgrade_controller.Controller.Progression.{InOrder, Advance-InOrder, InOrder-of_Cleared}
use upgrade_controller.Controller.Progression.Flags.{stage_flags, TypesDistinct}
use upgrade_controller.Controller.Progression.Refinement.{is_observed, flags}
use upgrade_controller.Controller.Progression.Passes.{ReleasePass, reconcile_release-ReleasePass}

-- The plans of a release that edits and passes lead to, where every pass may see another cluster.
pub data Reached (e : Env) (release : ReleaseManifestSpec) : UpgradePlan → Type 0 where
  -- a plan that was created or edited, so that its generation is not observed
  edited : (p : UpgradePlan) → is_observed p ≡ false → Reached e release p
  passed :
      (s : State e.World)
      → Reached e release s.plan
      → Reached e release (reconcile_release e release s).1.plan

module _ (e : Env) (laws : ConditionLaws e.conditions) (release : ReleaseManifestSpec)
    (distinct : TypesDistinct release.components.helm) where
  pass-keeps_order :
      (p q : UpgradePlan)
      → ReleasePass e.conditions release p q
      → (is_observed p ≡ true → InOrder (flags e laws release distinct p))
      → is_observed q ≡ true
      → InOrder (flags e laws release distinct q)
  pass-keeps_order p q (ReleasePass.advanced before after step) h now =
      Advance-InOrder (flags e laws release distinct p) (flags e laws release distinct q) step
        (h before)
  pass-keeps_order p q (ReleasePass.restarted before after cleared) h now =
      InOrder-of_Cleared (flags e laws release distinct q) cleared
  pass-keeps_order p q (ReleasePass.stopped same flags_same) h now =
      rw flags_same (h (sym same ∙ now))

-- Whatever edits and passes led to a plan, where all passes were over the same release, and
-- whatever the cluster was at each pass, the plan's observed generation is worked off in order: no
-- stage or chart is finished behind one that is not. The operating system and Kubernetes are
-- finished when they are upgraded, a chart when it is upgraded, skipped or failed. The stages and
-- charts have condition types of their own, and conditions work as Kubernetes documents.
pub Reached-InOrder :
    (e : Env) (laws : ConditionLaws e.conditions) (release : ReleaseManifestSpec)
    (distinct : TypesDistinct release.components.helm) (p : UpgradePlan)
    → Reached e release p
    → is_observed p ≡ true
    → InOrder (stage_flags e.conditions release.components.helm p)
Reached-InOrder e laws release distinct _ (Reached.edited p unobserved) now =
    let f : true ≡ false = sym now ∙ unobserved in cc
Reached-InOrder e laws release distinct _ (Reached.passed s before) now =
    pass-keeps_order e laws release distinct s.plan _
      (reconcile_release-ReleasePass e laws release s distinct)
      (Reached-InOrder e laws release distinct s.plan before) now
