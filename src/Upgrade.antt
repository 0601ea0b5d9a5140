-- ===== src/Upgrade.antt =====
-- The upgrade of a cluster to a new image: pkg/controllers/vdb/upgrade.go, offlineupgrade_reconcile.go
-- and onlineupgrade_reconciler.go.
pub mod World
pub mod Manager
pub mod Policy
pub mod Images
pub mod Admission
pub mod Offline
pub mod Transient
pub mod Routing
pub mod Online
