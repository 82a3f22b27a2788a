-- ===== src/Controller/Kubernetes/Components.antt =====
-- When the core components count as upgraded.
use upgrade_controller.Prelude.{
  String, ◌≡◌, ◌↔◌, ◌⊎◌, refl, true, false, inl, inr, Bool, Bool-cases, none, some, List, [], ◌∷◌,
  All, arith,
}
use upgrade_controller.Errors.{Result, ok, err, panic, Error, is_not_found}
use upgrade_controller.Api.ReleaseManifest.{CoreComponent}
use upgrade_controller.Controller.Env.{Env}
use upgrade_controller.Controller.Kubernetes.{
  is_k8s_core_component_upgraded, get_k8s_core_components_upgrade_status,
}

module _ (e : Env) (w : e.World) where
  -- Upgraded, or not on this cluster.
  abbrev pub IsUpgradedOrAbsent : CoreComponent → Type 0
  IsUpgradedOrAbsent component =
      (is_k8s_core_component_upgraded e w component ≡ ok true)
      ⊎ (error : Error) × (is_k8s_core_component_upgraded e w component ≡ err error)
        × (is_not_found error ≡ true)

  -- The loop waits for no component exactly when each is upgraded or absent.
  pub no_waiting_iff :
      (components : List CoreComponent)
      → (get_k8s_core_components_upgrade_status e w components ≡ ok none)
        ↔ All IsUpgradedOrAbsent components
  unfolding get_k8s_core_components_upgrade_status
  no_waiting_iff [] = ground arith
  no_waiting_iff (c ∷ cs) = ground (arith, no_waiting_iff cs)

  -- The component of this name has an upgrade test that says no, those before it are upgraded or
  -- absent.
  pub data IsFirstWaiting (name : String) : List CoreComponent → Type 0 where
    here :
        {c : CoreComponent} {cs : List CoreComponent}
        → is_k8s_core_component_upgraded e w c ≡ ok false
        → c.name ≡ name
        → IsFirstWaiting name (c ∷ cs)
    later :
        {c : CoreComponent} {cs : List CoreComponent}
        → IsUpgradedOrAbsent c
        → IsFirstWaiting name cs
        → IsFirstWaiting name (c ∷ cs)

  -- The component that the loop answers to wait for is the first of the list whose upgrade test says
  -- no: those before it are upgraded, or not on the cluster.
  pub waiting-IsFirstWaiting :
      (components : List CoreComponent) (name : String)
      → get_k8s_core_components_upgrade_status e w components ≡ ok (some name)
      → IsFirstWaiting name components
  unfolding get_k8s_core_components_upgrade_status
  waiting-IsFirstWaiting [] name h = cc
  waiting-IsFirstWaiting (c ∷ cs) name h =
      go (is_k8s_core_component_upgraded e w c) refl (waiting-IsFirstWaiting cs name)
    where
      go :
          (r : Result Bool)
          → is_k8s_core_component_upgraded e w c ≡ r
          → (get_k8s_core_components_upgrade_status e w cs ≡ ok (some name)
              → IsFirstWaiting name cs)
          → IsFirstWaiting name (c ∷ cs)
      go (ok true) q ih = IsFirstWaiting.later (inl q) (ih (ground arith))
      go (ok false) q ih = IsFirstWaiting.here q (ground arith)
      go (panic p) q ih = absurd (ground arith)
      go (err error) q ih = elim (Bool-cases (is_not_found error)) [
        | inl absent ↦ IsFirstWaiting.later (inr (error, q, absent)) (ih (ground arith))
        | inr other ↦ absurd (ground arith)
      ]
