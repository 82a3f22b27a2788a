-- ===== src/Tests.antt =====
-- Runs of the model on small clusters.
mod Library
mod Cluster
mod Samples
mod Webhook
mod Passes
mod Stages
mod Charts
mod Helm
mod Containers
mod Manifests
mod Support
mod Order
mod Settled
mod Startup
mod Releases
