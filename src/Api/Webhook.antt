-- ===== src/Api/Webhook.antt =====
-- api/v1beta1/verticadb_webhook.go: the admission webhook of VerticaDB.
pub mod Errors
pub mod Default
pub mod Cluster
pub mod Subclusters
pub mod Mounts
pub mod Routing
pub mod Create
pub mod Immutable
pub mod Autoscaler
