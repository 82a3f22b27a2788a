-- ===== src/Upgrade/Names.antt =====
-- How the objects of one upgrade are named, and refer to each other.
use upgrade_controller.Prelude.{
  String, ◌++◌, ◌≡◌, ◌≢◌, refl, ap, sym, ◌∙◌, arith, Bool, true, false, nat_eq, some, [], ◌∷◌, Dict,
}
use upgrade_controller.Api.ReleaseManifest.{OperatingSystem}
use upgrade_controller.Upgrade.Base.{control_plane_key, workers_key, base_upgrade_plan}
use upgrade_controller.Upgrade.Os.{
  os_plan_name, os_secret_name, base_os_plan, os_control_plane_plan, os_worker_plan,
}
use upgrade_controller.Upgrade.Kubernetes.{
  kubernetes_plan_name, kubernetes_upgrade_image, kubernetes_control_plane_plan,
  kubernetes_worker_plan,
}
use Prim.Native.Char.{code}
use text.Mathlib.TextLemmas.{append_cancel_left, cons-append, head-eq_of_cons-eq}

-- what is left of two equal texts behind a part and a dash
behind : (a : String) {s t : String} → a ++ "-" ++ s ≡ a ++ "-" ++ t → s ≡ t
behind a {s} {t} h = append_cancel_left "-" s t (append_cancel_left a ("-" ++ s) ("-" ++ t) h)

-- The secret of the OS stage, the plans of the OS stage for one name and version of the operating
-- system, and the plans of the Kubernetes stage for one version have different names under two
-- different suffixes.
pub suffixes_separate :
    (s t : String)
    → s ≢ t
    → ((key os version : String) → os_plan_name key os version s ≢ os_plan_name key os version t)
      × ((os version : String) → os_secret_name os version s ≢ os_secret_name os version t)
      × ((key version : String)
          → kubernetes_plan_name key version s ≢ kubernetes_plan_name key version t)
unfolding os_plan_name os_secret_name kubernetes_plan_name
suffixes_separate s t differ = (
  λ key os version h. differ (behind _ (behind _ (behind _ h))),
  λ os version h. differ (behind _ (behind _ (append_cancel_left "os-upgrade-secret-" _ _ h))),
  λ key version h. differ (behind _ (behind _ h)),
)

names_differ : (a b : String) → control_plane_key ++ a ≢ workers_key ++ b
names_differ a b h =
    let heads : String.◌∷◌ "c" ("ontrol-plane" ++ a) ≡ String.◌∷◌ "w" ("orkers" ++ b) =
      sym (cons-append "c" "ontrol-plane" a) ∙ h ∙ cons-append "w" "orkers" b in
    let q : true ≡ false = ap (λ c. nat_eq (code c) b'c') (head-eq_of_cons-eq heads) in
    let absurd : ⊥ = ground arith in absurd

-- The control plane plan and the worker plan of one stage, built for the same suffix, have
-- different names; and the worker plan of the Kubernetes stage prepares by waiting for the very
-- control plane plan, with the image that both run.
pub stage_plans_paired :
    (suffix version : String) (os : OperatingSystem) (rv secret_name : String)
    (drain_cp drain_worker : Bool) (labels labels' : Dict String)
    → ((os_control_plane_plan suffix rv secret_name os drain_cp labels).0.metadata.name
        ≢ (os_worker_plan suffix rv secret_name os drain_worker labels').0.metadata.name)
      × ((kubernetes_control_plane_plan suffix version drain_cp labels).0.metadata.name
          ≢ (kubernetes_worker_plan suffix version drain_worker labels').0.metadata.name)
      × ((kubernetes_worker_plan suffix version drain_worker labels').0.spec.prepare
          ≡ some (record {
            image = kubernetes_upgrade_image version;
            command = [];
            args =
                "prepare"
                ∷ (kubernetes_control_plane_plan suffix version drain_cp labels).0.metadata.name
                ∷ [];
          }))
      × ((kubernetes_worker_plan suffix version drain_worker labels').0.spec.upgrade
          ≡ (kubernetes_control_plane_plan suffix version drain_cp labels).0.spec.upgrade)
unfolding os_control_plane_plan os_worker_plan kubernetes_control_plane_plan kubernetes_worker_plan
    base_os_plan base_upgrade_plan os_plan_name kubernetes_plan_name
stage_plans_paired suffix version os rv secret_name drain_cp drain_worker labels labels' =
    (names_differ _ _, names_differ _ _, refl, refl)
