-- ===== src/Tests/Tiers.antt =====
-- Lists of tiers and runs of the uploader, and the theorems at them.
use benri_stream.Prelude.{
  ℕ, String, true, false, none, some, List, [], ◌∷◌, map, ◌≡◌, ◌≢◌, ◌⊎◌, refl, ap, In, here, there,
  concat, show_nat,
}
use benri_stream.Platform.{Result, ok}
use benri_stream.Effects.Ports.{StorageError}
use benri_stream.Transcoder.Quality.{
  QualityLevel, low, medium, high, name, split, comma, parse_quality_tiers,
}
use benri_stream.Transcoder.Quality.Ladder.{IsLadder, parse_quality_tiers-IsLadder}
use benri_stream.Transcoder.Quality.Printed.{join, parse_quality_tiers-join}
use benri_stream.Transcoder.Uploader.Files.{
  PathBuf, TierDir, missing, entries, scan_segments, select_uploadable_segments, insert_path,
  leb_bytes, sort_paths, synthesize_variant_playlist,
}
use benri_stream.Transcoder.Uploader.{
  Upload, new, run, polls, tick, upload_tier, upload_one_segment, upload_named, each, request,
  publish_variant_playlist_if_changed, publish_master_and_notify, fire_notifier_once,
}
use benri_stream.Transcoder.Uploader.Justified.{
  AllJustified, StoredSegment, Playable, Stored, master_upload, playlist_upload,
}
use benri_stream.Transcoder.Pipeline.{
  eos, other, popped, Attempt, look, bus_loop, drive_pipeline_to_eos, pipeline_first,
  transcode_to_hls,
}
use benri_stream.Transcoder.Pipeline.Outcome.{ReachesEos, transcode_to_hls-ok}
use benri_stream.Transcoder.Uploader.Runs.{run-AllJustified, run-notified}
use benri_stream.Transcoder.Uploader.Framed.{key_of}
use benri_stream.Transcoder.Uploader.Keys.{master_key}
use benri_stream.Transcoder.Uploader.Finished.{run-IsDrained, run-announced, run-silent}

parse_quality_tiers-IsLadder_example :
    IsLadder (split comma " Medium,low ,x,,MEDIUM") (parse_quality_tiers " Medium,low ,x,,MEDIUM")
parse_quality_tiers-IsLadder_example = parse_quality_tiers-IsLadder " Medium,low ,x,,MEDIUM"

parse_quality_tiers-join_example :
    parse_quality_tiers (join (map name (high ∷ low ∷ []))) ≡ high ∷ low ∷ []
parse_quality_tiers-join_example =
    parse_quality_tiers-join (high ∷ low ∷ []) refl (refl, (refl, tt))

abbrev answers : ℕ → Result StorageError (Unit {0})
answers n = ok tt

abbrev both : List QualityLevel
both = high ∷ low ∷ []

abbrev prefix : String
prefix = "videos/1/"

abbrev segment_0 : PathBuf
segment_0 = record { file_name = some "segment_00000.ts"; extension = some "ts"; bytes = 48 ∷ [] }

abbrev segment_1 : PathBuf
segment_1 = record { file_name = some "segment_00001.ts"; extension = some "ts"; bytes = 49 ∷ [] }

abbrev polled : List (QualityLevel → TierDir)
polled = (λ level. missing) ∷ (λ level. entries (segment_1 ∷ segment_0 ∷ [])) ∷ []

abbrev drained : QualityLevel → TierDir
drained level = entries (segment_1 ∷ [])

run_ok : (run answers prefix both true polled drained new).0 ≡ ok tt
unfolding run polls tick upload_tier upload_one_segment upload_named each request
    publish_variant_playlist_if_changed publish_master_and_notify fire_notifier_once new
    scan_segments select_uploadable_segments sort_paths insert_path leb_bytes
    synthesize_variant_playlist concat show_nat
run_ok = refl

run-AllJustified_example :
    AllJustified prefix both true (run answers prefix both true polled drained new).1.requests
run-AllJustified_example = run-AllJustified answers prefix both true polled drained

run-notified_example :
    let u = (run answers prefix both true polled drained new).1 in
    (u.notified ≡ 0)
    ⊎ ((u.notified ≡ 1)
        × Playable prefix low u.requests
        × Stored (master_upload prefix both true) u.requests)
run-notified_example = run-notified answers prefix both true polled drained

run-IsDrained_example :
    let u = (run answers prefix both true polled drained new).1 in
    StoredSegment prefix high "segment_00001.ts" u.requests
    × In "segment_00001.ts" (u.uploaded_segments high)
    × Stored
        (playlist_upload prefix high (synthesize_variant_playlist (u.uploaded_segments high) true))
        u.requests
run-IsDrained_example =
    run-IsDrained answers prefix both true polled drained high (segment_1 ∷ []) segment_1
      "segment_00001.ts" run_ok (here refl) refl (here refl) refl refl

run-announced_example : (run answers prefix both true polled drained new).1.notified ≡ 1
run-announced_example =
    run-announced answers prefix both true polled drained (segment_1 ∷ []) segment_1
      "segment_00001.ts" run_ok (there (here refl)) refl (here refl) refl refl

run-silent_example :
    let u = (run answers prefix (medium ∷ []) true polled drained new).1 in
    (u.notified ≡ 0)
    × (u.master_uploaded ≡ false)
    × ((upload : Upload) (r : Result StorageError (Unit {0}))
        → In (upload, r) u.requests
        → key_of upload ≢ master_key prefix)
run-silent_example = run-silent answers prefix (medium ∷ []) true polled drained refl

abbrev attempt : Attempt
attempt = record {
  setup = ok tt;
  playing = ok tt;
  bus = popped none ∷ popped (some other) ∷ popped (some eos) ∷ [];
  pipeline_panic = none;
  polled = polled;
  drained = drained;
  uploader_panic = none;
  is_uploader_first = false;
}

transcode_ok : transcode_to_hls answers prefix both true attempt ≡ some (ok tt)
unfolding transcode_to_hls drive_pipeline_to_eos bus_loop look pipeline_first
transcode_ok = ap some run_ok

transcode_to_hls-ok_example :
    ReachesEos attempt.bus × ((run answers prefix both true polled drained new).0 ≡ ok tt)
transcode_to_hls-ok_example = transcode_to_hls-ok answers prefix both true attempt transcode_ok
