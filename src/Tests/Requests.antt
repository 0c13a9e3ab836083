-- ===== src/Tests/Requests.antt =====
-- Requests to the API and calls of the storage, and the theorems at them.
use benri_stream.Prelude.{
  true, none, some, [], ◌∷◌, ◌≡◌, ◌≢◌, ◌⊎◌, refl, concat, if◌then◌else◌, ◌==◌, trim_end,
}
use benri_stream.Platform.{Platform, Uuid, ok, err}
use benri_stream.Video.{mp4}
use benri_stream.Db.Tasks.{too_long}
use benri_stream.UseCases.CompleteUpload
use benri_stream.UseCases.CompleteUpload.Refused.{ByOthers}
use benri_stream.Transcoder.Quality.{low}
use benri_stream.Video.{storage_prefix}
use benri_stream.UseCases.InitiateUpload.{upload_key}
use benri_stream.Transcoder.Uploader.Files.{tier_object_key, master_filename}
use benri_stream.Api.{
  HeaderMap, CompleteUploadResponse, complete_upload, serve_complete, resolve_trace_id,
}
use benri_stream.Api.Errors.{invalid_id, IsAnswer, complete_upload-IsAnswer}
use benri_stream.Api.Traces.{serve_complete-long_trace}
use benri_stream.Storage.{Buckets, bucket_for}
use benri_stream.Storage.Routing.{keys-bucket}
use benri_stream.Tests.Samples.{platform, video, waiting, arrived_env}

-- A platform that reads the id of the sample video.
abbrev reading : Platform
reading = record platform { parse_uuid = λ s. if s == "seven" then some 7 else none }

complete_upload-IsAnswer_example :
    ((reading.parse_uuid "seven" ≡ none)
      × (complete_upload reading arrived_env none "seven" waiting
          ≡ (err (invalid_id "seven"), waiting)))
    ⊎ ((id : Uuid) × (reading.parse_uuid "seven" ≡ some id)
        × (let (r, w') = CompleteUpload.execute reading arrived_env none id waiting in
            ((complete_upload reading arrived_env none "seven" waiting).1 ≡ w')
            × IsAnswer r (complete_upload reading arrived_env none "seven" waiting).0))
complete_upload-IsAnswer_example = complete_upload-IsAnswer reading arrived_env none "seven" waiting

-- The example of a traceparent in the specification of W3C.
abbrev headers : HeaderMap
headers name =
    if name == "traceparent"
    then some "00-0af7651916cd43dd8448eb211c80319c-b7ad6b7169203331-01"
    else none

abbrev accepted : CompleteUploadResponse
accepted = record { id = 7; status = "UPLOADED" }

too_long-headers : too_long (some (resolve_trace_id headers "new")) ≡ true
unfolding too_long resolve_trace_id trim_end
too_long-headers = refl

serve_complete-long_trace_example :
    ((serve_complete reading arrived_env headers "new" "seven" waiting).0 ≢ ok accepted)
    × ByOthers arrived_env waiting.db
        (serve_complete reading arrived_env headers "new" "seven" waiting).1.db
serve_complete-long_trace_example =
    serve_complete-long_trace reading arrived_env headers "new" "seven" waiting accepted
      too_long-headers

abbrev buckets : Buckets
buckets = record {
  upload_bucket = "originals";
  output_bucket = "public";
  cdn_base_url = "https://cdn";
}

keys-bucket_example :
    (bucket_for buckets (upload_key platform 7 mp4) ≡ some "originals")
    × (bucket_for buckets (storage_prefix platform video) ≡ some "public")
    × (bucket_for buckets (tier_object_key (storage_prefix platform video) low "segment_00000.ts")
        ≡ some "public")
    × (bucket_for buckets (concat (storage_prefix platform video ∷ master_filename ∷ []))
        ≡ some "public")
keys-bucket_example = keys-bucket buckets platform video 7 mp4 low "segment_00000.ts"
