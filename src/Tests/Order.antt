-- ===== src/Tests/Order.antt =====
-- A release of two charts, for a plan whose generation is new.
use upgrade_controller.Prelude.{◌≡◌, refl, neq_of_test, List, [], ◌∷◌}
use upgrade_controller.Prelude as P
use upgrade_controller.Api.UpgradePlan.{UpgradePlan}
use upgrade_controller.Api.UpgradePlan as U
use upgrade_controller.Api.ReleaseManifest as A
use upgrade_controller.Api.ReleaseManifest.{
  arch_type_x86, HelmChart, HelmCharts, ReleaseManifestSpec,
}
use upgrade_controller.Upgrade.Base as B
use upgrade_controller.Controller.Effects.{effects}
use upgrade_controller.Controller.Nodes as N
use upgrade_controller.Controller.Conditions as C
use upgrade_controller.Controller.Reconcile as R
use upgrade_controller.Controller.Reconcile.{reconcile_release}
use upgrade_controller.Controller.Progression.{InOrder}
use upgrade_controller.Controller.Progression.Flags.{stage_flags, TypesDistinct}
use upgrade_controller.Controller.Progression.Passes.{ReleasePass, reconcile_release-ReleasePass}
use upgrade_controller.Controller.Progression.Order.{edited, passed, Reached-InOrder}
use upgrade_controller.Tests.Library.{sample_conditions, sample_conditions-ConditionLaws}
use upgrade_controller.Tests.Cluster.{sample_env}
use upgrade_controller.Tests.Samples.{
  sample_plan, sample_release, sample_chart, chart_fields, sample_os, state_of,
}

abbrev pub second_chart : HelmChart
second_chart =
    HelmChart.helm_chart
      (record chart_fields {
        release_name = "neuvector";
        name = "neuvector";
        pretty_name = "NeuVector";
      })
      HelmCharts.nil HelmCharts.nil

abbrev pub two_charts : ReleaseManifestSpec
two_charts = record sample_release {
  components = record (sample_release.components) {
    operating_system = record sample_os { supported_archs = arch_type_x86 ∷ [] };
    helm = sample_chart ∷ second_chart ∷ [];
  };
}

abbrev pub edited_plan : UpgradePlan
edited_plan = record sample_plan {
  status = record (sample_plan.status) { observed_generation = 1 };
}

pub two_charts-TypesDistinct : TypesDistinct two_charts.components.helm
unfolding U.get_chart_condition_type
two_charts-TypesDistinct = record {
  validation_other = (
    neq_of_test "ValidationFailed" "Metal3Upgraded" refl,
    (neq_of_test "ValidationFailed" "NeuVectorUpgraded" refl, tt),
  );
  os_other = (
    neq_of_test "OSUpgraded" "Metal3Upgraded" refl,
    (neq_of_test "OSUpgraded" "NeuVectorUpgraded" refl, tt),
  );
  kubernetes_other = (
    neq_of_test "KubernetesUpgraded" "Metal3Upgraded" refl,
    (neq_of_test "KubernetesUpgraded" "NeuVectorUpgraded" refl, tt),
  );
  charts_distinct = ((neq_of_test "Metal3Upgraded" "NeuVectorUpgraded" refl, tt), (tt, tt));
}

reconcile_release-ReleasePass_example :
    ReleasePass sample_conditions two_charts edited_plan
      (reconcile_release sample_env two_charts (state_of edited_plan)).1.plan
reconcile_release-ReleasePass_example =
    reconcile_release-ReleasePass sample_env sample_conditions-ConditionLaws two_charts
      (state_of edited_plan) two_charts-TypesDistinct

-- the plan behind the pass that observes the generation
abbrev observed_plan : UpgradePlan
observed_plan = (reconcile_release sample_env two_charts (state_of edited_plan)).1.plan

Reached-InOrder_example :
    InOrder (stage_flags sample_conditions two_charts.components.helm observed_plan)
unfolding effects A.short A.add_architectures A.supported_architectures P.insert P.lookup
    P.encode_hex P.hex_digit B.generate_suffix N.find_unsupported_nodes C.set_condition
    C.set_pending_condition R.set_charts_pending R.start_generation R.fresh_suffix
    R.observe_generation R.reconcile_supported R.reconcile_release
Reached-InOrder_example =
    Reached-InOrder sample_env sample_conditions-ConditionLaws two_charts two_charts-TypesDistinct
      observed_plan (passed (state_of edited_plan) (edited edited_plan refl)) refl
