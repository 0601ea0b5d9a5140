-- ===== src/Api.antt =====
-- The custom resources (api/v1beta1): their types, the methods on them and the admission webhooks.
pub mod Types
pub mod Constants
pub mod Methods
pub mod Paths
pub mod Webhook
