-- ===== src/Task/Metadata.antt =====
-- crates/domain/src/task/metadata: the three types of tasks.
use benri_stream.Prelude.{◌*◌, String, true, some, [], ◌∷◌, concat, pos}
use benri_stream.Platform.{Platform}
use benri_stream.Video.{VideoId}
use benri_stream.Task.Types.{TaskMetadata, default_metadata, from_secs}

abbrev pub process_video_type : String
process_video_type = "ProcessVideoTaskMetadata"

abbrev pub delete_video_type : String
delete_video_type = "DeleteVideoTaskMetadata"

abbrev pub cleanup_stale_videos_type : String
cleanup_stale_videos_type = "CleanupStaleVideosTaskMetadata"

module _ (p : Platform) where
  unfoldable pub process_video : VideoId → TaskMetadata
  process_video video_id =
      record (default_metadata process_video_type (p.video_id_to_value video_id)) {
        processing_timeout = from_secs (2 * 60 * 60);
        max_retries = some (pos 1);
        retry_base_delay = from_secs 60;
        ordering_key = some (concat ("video_process:" ∷ p.show_uuid video_id ∷ []));
      }

  unfoldable pub delete_video : VideoId → TaskMetadata
  delete_video video_id =
      record (default_metadata delete_video_type (p.video_id_to_value video_id)) {
        processing_timeout = from_secs (5 * 60);
        max_retries = some (pos 5);
        retry_base_delay = from_secs 60;
        ordering_key = some (concat ("video_delete:" ∷ p.show_uuid video_id ∷ []));
      }

  unfoldable pub cleanup_stale_videos : TaskMetadata
  cleanup_stale_videos = record (default_metadata cleanup_stale_videos_type p.unit_to_value) {
    processing_timeout = from_secs (30 * 60);
    execution_interval = some (from_secs (24 * 60 * 60));
    max_retries = some (pos 3);
    retry_base_delay = from_secs (5 * 60);
    ordering_key = some "cleanup_stale_videos";
    is_system_task = true;
  }
