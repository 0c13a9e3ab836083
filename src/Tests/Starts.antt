-- ===== src/Tests/Starts.antt =====
-- Configurations of the environment, and the theorems at them.
use benri_stream.Prelude.{
  ℕ, String, true, false, Option, none, some, [], ◌∷◌, ◌≡◌, inl, refl, here, concat, show_nat,
  if◌then◌else◌, ◌==◌, trim,
}
use benri_stream.Platform.{Result, ok}
use benri_stream.Effects.Ports.{StorageError}
use benri_stream.Config.{
  AppConfig, from_env, build_client, create_s3_client, create_s3_presign_client,
}
use benri_stream.Transcoder.Quality.{
  QualityLevel, split, parse_quality_tiers, collect, from_name, to_ascii_lowercase,
}
use benri_stream.Transcoder.Uploader.Files.{
  PathBuf, TierDir, entries, scan_segments, select_uploadable_segments, insert_path, leb_bytes,
  sort_paths, synthesize_variant_playlist,
}
use benri_stream.Transcoder.Uploader.{
  new, run, polls, tick, upload_tier, upload_one_segment, upload_named, each, request,
  publish_variant_playlist_if_changed, publish_master_and_notify, fire_notifier_once,
}
use benri_stream.Worker.Start.{quality_tiers, HasLow, configured_announced}

-- QUALITY_TIERS and S3_PUBLIC_ENDPOINT are set, and nothing else.
abbrev env : String → Option String
env key =
    if key == "QUALITY_TIERS"
    then some "low"
    else if key == "S3_PUBLIC_ENDPOINT"
    then some "http://localhost:9000"
    else none

abbrev parse_none : String → Option ℕ
parse_none s = none

abbrev config : AppConfig
config = from_env env parse_none

one_slot : config.worker_concurrency ≡ 1
unfolding from_env
one_slot = refl

internal :
    create_s3_client config
    ≡ record { region = "us-east-1"; endpoint_url = none; force_path_style = false }
unfolding from_env create_s3_client build_client
internal = refl

presigned : create_s3_presign_client config ≡ record {
  region = "us-east-1";
  endpoint_url = some "http://localhost:9000";
  force_path_style = true;
}
unfolding from_env create_s3_presign_client build_client
presigned = refl

config-HasLow : HasLow config
unfolding from_env split from_name to_ascii_lowercase trim
config-HasLow = inl ("low", here refl, refl)

abbrev answers : ℕ → Result StorageError (Unit {0})
answers n = ok tt

abbrev segment : PathBuf
segment = record { file_name = some "segment_00000.ts"; extension = some "ts"; bytes = 48 ∷ [] }

abbrev drained : QualityLevel → TierDir
drained level = entries (segment ∷ [])

configured_ok : (run answers "videos/1/" (quality_tiers config) true [] drained new).0 ≡ ok tt
unfolding run polls tick upload_tier upload_one_segment upload_named each request
    publish_variant_playlist_if_changed publish_master_and_notify fire_notifier_once new
    scan_segments select_uploadable_segments sort_paths insert_path leb_bytes
    synthesize_variant_playlist concat show_nat quality_tiers parse_quality_tiers collect split
    from_name to_ascii_lowercase trim from_env
configured_ok = refl

configured_announced_example :
    (run answers "videos/1/" (quality_tiers config) true [] drained new).1.notified ≡ 1
configured_announced_example =
    configured_announced config answers "videos/1/" true [] drained (segment ∷ []) segment
      "segment_00000.ts" config-HasLow configured_ok refl (here refl) refl refl
