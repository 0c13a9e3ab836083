-- ===== src/Transcoder.antt =====
-- crates/infrastructure/src/transcoder: the quality tiers, the uploader of segments, the pipeline.
pub mod Quality
pub mod Uploader
pub mod Pipeline
pub mod Graph
