-- ===== src/Vas.antt =====
-- The VerticaAutoscaler controller (pkg/controllers/vas): how the subclusters behind a service are
-- grown and shrunk to reach a target number of pods.
pub mod Pods
pub mod Remove
pub mod Add
pub mod Resize
pub mod Scale
