-- ===== src/Api.antt =====
-- api/v1alpha1: the UpgradePlan and ReleaseManifest resources and the admission webhook.
pub mod UpgradePlan
pub mod ReleaseManifest
pub mod Webhook
