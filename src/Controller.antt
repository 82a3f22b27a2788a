-- ===== src/Controller.antt =====
-- internal/controller: the reconciler of upgrade plans.
pub mod Values
pub mod Env
pub mod Effects
pub mod Conditions
pub mod Nodes
pub mod Stage
pub mod Os
pub mod Kubernetes
pub mod Releases
pub mod Charts
pub mod Helm
pub mod Frame
pub mod Progression
pub mod ReleaseManifest
pub mod Reconcile
pub mod Watches
pub mod Routing
