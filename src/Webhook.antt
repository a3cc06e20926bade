-- ===== src/Webhook.antt =====
-- pkg/webhook: the admission webhooks for ManagedClusters and ManagedClusterSetBindings.
pub mod Admission
pub mod Cluster
pub mod ClusterSetBinding
