-- ===== src/Controller/Charts/Written.antt =====
-- helm.go: what `updateHelmChart` and `createHelmChart` wrote where they succeed.
use upgrade_controller.Prelude.{String, ◌≡◌, refl, sym, ap, ◌∙◌, ◌∷◌}
use upgrade_controller.Errors.{Result, ok, err, panic, in_context, ok_of_in_context}
use upgrade_controller.Kube.{HelmChartResource, helm_chart}
use upgrade_controller.Api.ReleaseManifest.{ChartFields}
use upgrade_controller.Controller.Values.{text, values, merge_helm_values}
use upgrade_controller.Controller.Env.{Env, HelmRelease}
use upgrade_controller.Controller.Effects.{
  Call, created, updated_chart, Eff, State, effects, create_object, act, continue,
}
use upgrade_controller.Controller.Effects.Changes.{changes, changes-create_object}
use upgrade_controller.Controller.Charts.{
  find_user_values, updated_chart_resource, new_chart_resource, update_helm_chart,
  create_helm_chart,
}

module _ (e : Env) (wanted : ChartFields) (s : State e.World) where
  -- A call that follows the merging of values is the only change.
  one_change :
      (r : Result String) (next : String → Eff e.World (Unit {0})) (call : String → Call)
      → ((merged : String) → changes (next merged s).1.trace ≡ call merged ∷ changes s.trace)
      → {u : Unit {0}} {after : State e.World} → continue (r, s) next ≡ (ok u, after)
      → (merged : String) × (r ≡ ok merged) × (changes after.trace ≡ call merged ∷ changes s.trace)
  unfolding effects
  one_change (ok merged) next call adds h =
      (merged, refl, ap (λ r. changes r.1.trace) (sym h) ∙ adds merged)
  one_change (err error) next call adds h = cc
  one_change (panic p) next call adds h = cc

  pub update_changes :
      (chart : HelmChartResource) {u : Unit {0}} {after : State e.World}
      → update_helm_chart e chart wanted s ≡ (ok u, after)
      → (merged : String) × (merge_helm_values e.codec
            (text chart.spec.values_content)
            wanted.values
            (find_user_values wanted.name s.plan.spec.helm)
          ≡ ok merged)
        × (changes after.trace
            ≡ updated_chart (updated_chart_resource s.plan chart wanted merged) ∷ changes s.trace)
  unfolding effects update_helm_chart
  update_changes chart h =
      let resource : String → HelmChartResource = updated_chart_resource s.plan chart wanted in
      let (merged, made, changed) =
        one_change
          (in_context "merging chart values" (
            merge_helm_values e.codec (text chart.spec.values_content) wanted.values
              (find_user_values wanted.name s.plan.spec.helm)))
          (λ merged. act (updated_chart (resource merged)) (e.update_helm_chart (resource merged)))
          (λ merged. updated_chart (resource merged)) (λ merged. refl) h in
      (merged, ok_of_in_context _ _ made, changed)

  pub create_changes :
      (release : HelmRelease) {u : Unit {0}} {after : State e.World}
      → create_helm_chart e release wanted s ≡ (ok u, after)
      → (merged : String) × (merge_helm_values e.codec
            (values release.config)
            wanted.values
            (find_user_values wanted.name s.plan.spec.helm)
          ≡ ok merged)
        × (changes after.trace
            ≡ created (helm_chart (new_chart_resource s.plan release wanted merged))
              ∷ changes s.trace)
  unfolding effects create_helm_chart
  create_changes release h =
      let resource : String → HelmChartResource = new_chart_resource s.plan release wanted in
      let (merged, made, changed) =
        one_change
          (in_context "merging chart values" (
            merge_helm_values e.codec (values release.config) wanted.values
              (find_user_values wanted.name s.plan.spec.helm)))
          (λ merged. create_object e (helm_chart (resource merged)))
          (λ merged. created (helm_chart (resource merged)))
          (λ merged. changes-create_object e (helm_chart (resource merged)) s) h in
      (merged, ok_of_in_context _ _ made, changed)
