-- ===== src/Kube.antt =====
-- The shapes of the Kubernetes, Helm and System Upgrade Controller objects, as far as the program
-- reads or writes their fields. The types themselves belong to third-party packages.
mod Meta
mod Workloads
mod Objects
pub use Meta.*
pub use Workloads.*
pub use Objects.*
