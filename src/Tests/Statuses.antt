-- ===== src/Tests/Statuses.antt =====
-- The texts of the statuses of videos.
use benri_stream.Prelude.{some, ◌≡◌, ◌↔◌}
use benri_stream.Video
use benri_stream.Video.Status.{failed, video_status_roundtrip}

video_status_roundtrip_example :
    (Video.Status.from_str "FAILED" ≡ some failed) ↔ ("FAILED" ≡ Video.Status.as_str failed)
video_status_roundtrip_example = video_status_roundtrip "FAILED" failed
