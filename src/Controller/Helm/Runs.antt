-- ===== src/Controller/Helm/Runs.antt =====
-- The upgrades of a chart's dependencies and add-ons, one after the other.
use upgrade_controller.Prelude.{String, ◌≡◌, refl, Bool, true, false, List, [], ◌∷◌}
use upgrade_controller.Errors.{ok}
use upgrade_controller.Api.ReleaseManifest.{HelmChart, fields}
use upgrade_controller.Upgrade.Helm.{
  HelmChartState, unknown, not_installed, version_already_installed, in_progress, failed, succeeded,
}
use upgrade_controller.Controller.Env.{Env}
use upgrade_controller.Controller.Effects.{Eff, State, CtrlResult, effects, ◌>>◌}
use upgrade_controller.Controller.Charts.{upgrade_helm_chart}
use upgrade_controller.Controller.Helm.{is_done, addon_event}

-- the states in which an add-on lets the loop go on
abbrev pub is_ended : HelmChartState → Bool
is_ended in_progress = false
is_ended unknown = false
is_ended _ = true

module _ (e : Env) where
  -- A run over dependencies, each of which is done.
  pub data DependenciesDone : List HelmChart → State e.World → State e.World → Type 0 where
    none_left : (s : State e.World) → DependenciesDone [] s s
    next_done :
        {dep : HelmChart} {rest : List HelmChart} {s after last : State e.World}
        (state : HelmChartState)
        → upgrade_helm_chart e (fields dep) s ≡ (ok state, after)
        → is_done state ≡ true
        → DependenciesDone rest after last
        → DependenciesDone (dep ∷ rest) s last

  -- A run over add-ons, each of which has ended, with the events in between.
  pub data AddonsEnded (type core : String)
      : List HelmChart → State e.World → State e.World → Type 0 where
    none_left : (s : State e.World) → AddonsEnded type core [] s s
    next_ended :
        {addon : HelmChart} {rest : List HelmChart} {s after last : State e.World}
        (state : HelmChartState)
        → upgrade_helm_chart e (fields addon) s ≡ (ok state, after)
        → is_ended state ≡ true
        → AddonsEnded type core rest
            (addon_event e type core (fields addon).release_name state after).1
            last
        → AddonsEnded type core (addon ∷ rest) s last

  -- The event of an add-on always goes on, with the plan as it was.
  pub event_then :
      (type core addon : String) (state : HelmChartState) (rest : Eff e.World CtrlResult)
      (s : State e.World)
      → (addon_event e type core addon state >> rest) s
        ≡ rest (addon_event e type core addon state s).1
  unfolding effects addon_event
  event_then type core addon failed rest s = refl
  event_then type core addon not_installed rest s = refl
  event_then type core addon succeeded rest s = refl
  event_then type core addon in_progress rest s = refl
  event_then type core addon unknown rest s = refl
  event_then type core addon version_already_installed rest s = refl
