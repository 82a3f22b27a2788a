-- ===== src/Tests/Charts.antt =====
-- Charts, their values, and the names and watches of an upgrade's objects.
use upgrade_controller.Prelude as P
use upgrade_controller.Prelude.{
  String, ◌≡◌, ◌≢◌, refl, true, false, none, some, List, [], ◌∷◌, neq_of_test,
}
use upgrade_controller.Kube.{HelmChartResource, StatusCondition, condition_true}
use upgrade_controller.Upgrade.Helm.{in_progress}
use upgrade_controller.Upgrade.Os.{
  os_plan_name, os_secret_name, os_control_plane_plan, os_worker_plan,
}
use upgrade_controller.Upgrade.Kubernetes.{
  kubernetes_plan_name, kubernetes_upgrade_image, kubernetes_control_plane_plan,
  kubernetes_worker_plan,
}
use upgrade_controller.Upgrade.Names.{suffixes_separate, stage_plans_paired}
use upgrade_controller.Controller.Values as V
use upgrade_controller.Controller.Values.{
  Fields, end, field, scalar, object, values, merge_helm_values, merge_maps, marshal_fields,
}
use upgrade_controller.Controller.Values.Merge.{IsMap, IsMapValue, get, over, lookup-merge_maps}
use upgrade_controller.Controller.Values.Layers.{merge_helm_values_precedence}
use upgrade_controller.Controller.Effects.{effects, create_object}
use upgrade_controller.Controller.Effects.Changes.{changes}
use upgrade_controller.Controller.Conditions.{is_helm_upgrade_finished, evaluate_helm_chart_state}
use upgrade_controller.Controller.Conditions.Laws.{condition_of}
use upgrade_controller.Controller.Conditions.States.{evaluate_helm_chart_state-finished}
use upgrade_controller.Controller.Releases.{retrieve_helm_release}
use upgrade_controller.Controller.Charts as C
use upgrade_controller.Controller.Charts.{
  upgrade_helm_chart, upgrade_existing_chart, updated_chart_resource, new_chart_resource,
  state_of_job, job_key,
}
use upgrade_controller.Controller.Charts.Outcome.{Outcome, upgrade_helm_chart-Outcome}
use upgrade_controller.Controller.Charts.Repeat.{written_chart_left_alone}
use upgrade_controller.Controller.Watches.{is_job_finished, job_predicate}
use upgrade_controller.Controller.Watches.Triggers.{
  triggers, expected_triggers, StaysFinished, job_triggers_once,
}
use upgrade_controller.Tests.Library.{sample_conditions, sample_conditions-ConditionLaws}
use upgrade_controller.Tests.Cluster.{sample_env, one_key}
use upgrade_controller.Tests.Samples.{
  sample_plan, sample_os, sample_cluster, chart_fields, installed_release, state_of,
}

upgrade_helm_chart-Outcome_example :
    Outcome sample_env chart_fields
      (state_of sample_plan)
      in_progress
      (changes (upgrade_helm_chart sample_env chart_fields (state_of sample_plan)).1.trace)
unfolding effects create_object P.lookup upgrade_helm_chart C.upgrade_release
    C.upgrade_missing_chart C.create_helm_chart C.find_user_values retrieve_helm_release
    merge_helm_values V.installed_fields V.copy V.insert V.merge_layer marshal_fields
upgrade_helm_chart-Outcome_example =
    upgrade_helm_chart-Outcome sample_env chart_fields (state_of sample_plan) in_progress refl

abbrev chart_resource : HelmChartResource
unfolding new_chart_resource
chart_resource = new_chart_resource sample_plan installed_release chart_fields "values"

written_chart_left_alone_example :
    (upgrade_existing_chart sample_env chart_fields
        (updated_chart_resource sample_plan chart_resource chart_fields "yaml")
        (state_of sample_plan)
      ≡ (
        state_of_job (
            sample_env.get_job
              (job_key (updated_chart_resource sample_plan chart_resource chart_fields "yaml"))
              sample_cluster),
        state_of sample_plan,
      ))
    × (upgrade_existing_chart sample_env chart_fields
          (new_chart_resource sample_plan installed_release chart_fields "yaml")
          (state_of sample_plan)
        ≡ (
          state_of_job (
              sample_env.get_job
                (job_key (new_chart_resource sample_plan installed_release chart_fields "yaml"))
                sample_cluster),
          state_of sample_plan,
        ))
written_chart_left_alone_example =
    written_chart_left_alone sample_env chart_fields sample_plan chart_resource installed_release
      "yaml" (state_of sample_plan) refl

evaluate_helm_chart_state-finished_example :
    (is_helm_upgrade_finished sample_conditions
        ((evaluate_helm_chart_state sample_conditions in_progress).0 sample_plan "Metal3Upgraded"
          "")
        "Metal3Upgraded"
      ≡ (evaluate_helm_chart_state sample_conditions in_progress).1)
    × (condition_of sample_conditions
          ((evaluate_helm_chart_state sample_conditions in_progress).0 sample_plan "Metal3Upgraded"
            "")
          "OSUpgraded"
        ≡ condition_of sample_conditions sample_plan "OSUpgraded")
evaluate_helm_chart_state-finished_example =
    evaluate_helm_chart_state-finished sample_conditions sample_conditions-ConditionLaws in_progress
      sample_plan "Metal3Upgraded" "" "OSUpgraded" (neq_of_test "Metal3Upgraded" "OSUpgraded" refl)

abbrev nested : Fields
nested = field "a" (object (one_key "b")) (field "c" (scalar "2") end)

nested-IsMap : IsMap nested
unfolding IsMap IsMapValue V.lookup
nested-IsMap = (refl, (refl, tt, tt), (refl, tt, tt))

lookup-merge_maps_example :
    V.lookup "a" (merge_maps (one_key "a") nested)
    ≡ over (V.lookup "a" (one_key "a")) (V.lookup "a" nested)
lookup-merge_maps_example = lookup-merge_maps "a" (one_key "a") nested nested-IsMap

one_key-IsMap : IsMap (one_key "b")
unfolding IsMap IsMapValue V.lookup
one_key-IsMap = (refl, tt, tt)

merge_helm_values_precedence_example :
    ((m : Fields) × (merge_helm_values sample_env.codec (values nested) (some "a") (some "b")
        ≡ marshal_fields sample_env.codec m)
      × (get m "b" [] ≡ some (scalar "1")))
    × ((m : Fields) × (merge_helm_values sample_env.codec (values nested) (some "b") none
          ≡ marshal_fields sample_env.codec m)
        × (get m "b" [] ≡ some (scalar "1")))
unfolding V.installed_fields V.merge_layer get V.lookup
merge_helm_values_precedence_example =
    merge_helm_values_precedence sample_env.codec (values nested) (some "a") (V.copy end nested)
      (merge_maps (V.copy end nested) (one_key "a")) refl refl "b" [] "1" "b" (one_key "b")
      (neq_of_test "b" "" refl) refl one_key-IsMap refl

-- A job that completes in its second update and is updated once more.
abbrev complete : List StatusCondition
complete = record { type = "Complete"; status = condition_true; message = "" } ∷ []

stays : StaysFinished [] ([] ∷ complete ∷ complete ∷ [])
unfolding StaysFinished is_job_finished
stays = ((λ h. h), ((λ h. refl), ((λ h. refl), tt)))

job_triggers_once_example :
    triggers job_predicate [] ([] ∷ complete ∷ complete ∷ [])
    ≡ expected_triggers (is_job_finished []) (is_job_finished complete)
job_triggers_once_example = job_triggers_once [] ([] ∷ complete ∷ complete ∷ []) stays

suffixes_separate_example :
    ((key os version : String) → os_plan_name key os version "a" ≢ os_plan_name key os version "b")
    × ((os version : String) → os_secret_name os version "a" ≢ os_secret_name os version "b")
    × ((key version : String)
        → kubernetes_plan_name key version "a" ≢ kubernetes_plan_name key version "b")
suffixes_separate_example = suffixes_separate "a" "b" (neq_of_test "a" "b" refl)

stage_plans_paired_example :
    ((os_control_plane_plan "abc" "3.1.0" "secret" sample_os true []).0.metadata.name
      ≢ (os_worker_plan "abc" "3.1.0" "secret" sample_os false []).0.metadata.name)
    × ((kubernetes_control_plane_plan "abc" "v1.30.3+k3s1" true []).0.metadata.name
        ≢ (kubernetes_worker_plan "abc" "v1.30.3+k3s1" false []).0.metadata.name)
    × ((kubernetes_worker_plan "abc" "v1.30.3+k3s1" false []).0.spec.prepare
        ≡ some (record {
          image = kubernetes_upgrade_image "v1.30.3+k3s1";
          command = [];
          args =
              "prepare"
              ∷ (kubernetes_control_plane_plan "abc" "v1.30.3+k3s1" true []).0.metadata.name
              ∷ [];
        }))
    × ((kubernetes_worker_plan "abc" "v1.30.3+k3s1" false []).0.spec.upgrade
        ≡ (kubernetes_control_plane_plan "abc" "v1.30.3+k3s1" true []).0.spec.upgrade)
stage_plans_paired_example =
    stage_plans_paired "abc" "v1.30.3+k3s1" sample_os "3.1.0" "secret" true false [] []
