-- ===== src/UseCases.antt =====
-- crates/application/src/usecases/video: a module for each use case.
pub mod Scheduling
pub mod InitiateUpload
pub mod CompleteUpload
pub mod ProcessVideo
pub mod DeleteVideo
pub mod CleanupStaleVideos
pub mod GetVideo
