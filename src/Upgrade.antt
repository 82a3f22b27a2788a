-- ===== src/Upgrade.antt =====
-- internal/upgrade: the objects that carry out an upgrade.
pub mod Base
pub mod Kubernetes
pub mod Os
pub mod Container
pub mod Helm
pub mod ReleaseManifest
pub mod Names
pub mod Suffixes
