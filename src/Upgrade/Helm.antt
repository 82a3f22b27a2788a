-- ===== src/Upgrade/Helm.antt =====
-- internal/upgrade/helm.go
use upgrade_controller.Prelude.{String, ◌++◌}
use upgrade_controller.Kube.{NamespacedName}
use upgrade_controller.Upgrade.Base.{kube_system_namespace}

abbrev pub chart_namespaced_name : String → NamespacedName
chart_namespaced_name chart = record { namespace = kube_system_namespace; name = chart }

pub data HelmChartState : Type 0 where
  unknown not_installed version_already_installed in_progress failed succeeded : HelmChartState

unfoldable pub formatted_message : HelmChartState → String → String
formatted_message unknown chart = "State of chart " ++ chart ++ " is unknown"
formatted_message not_installed chart = "Chart " ++ chart ++ " is not installed"
formatted_message version_already_installed chart =
    "Specified version of chart " ++ chart ++ " is already installed"
formatted_message in_progress chart = "Chart " ++ chart ++ " upgrade is in progress"
formatted_message failed chart = "Chart " ++ chart ++ " upgrade failed"
formatted_message succeeded chart = "Chart " ++ chart ++ " upgrade succeeded"
