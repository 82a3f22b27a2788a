-- ===== src/Controller/Routing/Labels.antt =====
-- The labels of every object that the reconciler builds.
use upgrade_controller.Prelude.{
  String, ◌≡◌, ◌≢◌, refl, List, lookup, lookup-insert, arith, inl, inr,
}
use upgrade_controller.Errors.{Result, ok}
use upgrade_controller.Kube.{ObjectMeta, Secret, Node, Job, HelmChartResource}
use upgrade_controller.Api.UpgradePlan.{UpgradePlan}
use upgrade_controller.Api.ReleaseManifest.{OperatingSystem, KubernetesDistribution, ChartFields}
use upgrade_controller.Upgrade.Base.{suc_namespace, plan_identifier_labels, base_upgrade_plan}
use upgrade_controller.Upgrade.Os.{
  ScriptValues, os_upgrade_secret, os_control_plane_plan, os_worker_plan, base_os_plan,
}
use upgrade_controller.Upgrade.Kubernetes.{kubernetes_control_plane_plan, kubernetes_worker_plan}
use upgrade_controller.Upgrade.ReleaseManifest.{ContainerImage, release_manifest_install_job}
use upgrade_controller.Controller.Env.{HelmRelease}
use upgrade_controller.Controller.Os.{os_plans}
use upgrade_controller.Controller.Kubernetes.{kubernetes_plans}
use upgrade_controller.Controller.Charts.{updated_chart_resource, new_chart_resource}
use upgrade_controller.Controller.Routing.{Placed, LeadsTo, LeadsTo-of_lookups}

module _ (owner : UpgradePlan) (named : owner.metadata.name ≢ "") where
  abbrev m : ObjectMeta
  m = owner.metadata

  pub identifier_labels-LeadsTo : LeadsTo m (plan_identifier_labels m.name m.namespace)
  unfolding plan_identifier_labels lookup
  identifier_labels-LeadsTo = LeadsTo-of_lookups m _ named refl refl

  pub os_plans-Placed :
      (rv : String) (os : OperatingSystem) (nodes : List Node) (stored : Secret)
      → Placed m ((os_plans owner rv os nodes stored).0).metadata
        × Placed m ((os_plans owner rv os nodes stored).1).metadata
  unfolding os_plans os_control_plane_plan os_worker_plan base_os_plan base_upgrade_plan
      plan_identifier_labels lookup
  os_plans-Placed rv os nodes stored = (
    record { leads = LeadsTo-of_lookups m _ named refl refl; in_scope = inr (inr refl) },
    record { leads = LeadsTo-of_lookups m _ named refl refl; in_scope = inr (inr refl) },
  )

  pub kubernetes_plans-Placed :
      (distro : KubernetesDistribution) (nodes : List Node)
      → Placed m ((kubernetes_plans owner distro nodes).0).metadata
        × Placed m ((kubernetes_plans owner distro nodes).1).metadata
  unfolding kubernetes_plans kubernetes_control_plane_plan kubernetes_worker_plan base_upgrade_plan
      plan_identifier_labels lookup
  kubernetes_plans-Placed distro nodes = (
    record { leads = LeadsTo-of_lookups m _ named refl refl; in_scope = inr (inr refl) },
    record { leads = LeadsTo-of_lookups m _ named refl refl; in_scope = inr (inr refl) },
  )

  pub secret-Placed :
      (execute : ScriptValues → Result String) (suffix : String) (os : OperatingSystem) (o : Secret)
      → os_upgrade_secret execute suffix os (plan_identifier_labels m.name m.namespace) ≡ ok o
      → Placed m o.metadata
  unfolding os_upgrade_secret
  secret-Placed execute suffix os o h =
      let same : o.metadata.labels ≡ plan_identifier_labels m.name m.namespace = ground arith in
      let place : o.metadata.namespace ≡ suc_namespace = ground arith in
      record { leads = rw same identifier_labels-LeadsTo; in_scope = inr (inr place) }

  pub job-Placed :
      (image kubectl : ContainerImage) (account : String) (o : Job)
      → release_manifest_install_job image kubectl account m.namespace
          (plan_identifier_labels m.name m.namespace)
        ≡ ok o
      → Placed m o.metadata
  unfolding release_manifest_install_job
  job-Placed image kubectl account o h =
      let same : o.metadata.labels ≡ plan_identifier_labels m.name m.namespace = ground arith in
      let place : o.metadata.namespace ≡ m.namespace = ground arith in
      record { leads = rw same identifier_labels-LeadsTo; in_scope = inl place }

  pub new_chart-Placed :
      (installed : HelmRelease) (chart : ChartFields) (merged : String)
      → Placed m (new_chart_resource owner installed chart merged).metadata
  unfolding new_chart_resource
  new_chart-Placed installed chart merged = record {
    leads = identifier_labels-LeadsTo;
    in_scope = inr (inl refl);
  }

  pub updated_chart-LeadsTo :
      (existing : HelmChartResource) (chart : ChartFields) (merged : String)
      → LeadsTo m (updated_chart_resource owner existing chart merged).metadata.labels
  unfolding updated_chart_resource
  updated_chart-LeadsTo existing chart merged =
      LeadsTo-of_lookups m _ named (simp lookup-insert refl) (simp lookup-insert refl)
