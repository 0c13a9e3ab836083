-- ===== src/Transcoder/Uploader.antt =====
-- crates/infrastructure/src/transcoder/hls_uploader.rs: the uploads of a transcoding that runs.
pub mod Files
pub mod Rules
pub mod Justified
pub mod Published
pub mod Announced
pub mod Runs
pub mod Keys
pub mod Framed
pub mod Held
pub mod Drained
pub mod Finished
use benri_stream.Prelude.{
  ℕ, String, Bool, true, false, Option, none, some, List, [], ◌∷◌, ◌++◌, ◌+◌, ◌&&◌, not, any,
  is_empty, length, if◌then◌else◌, concat, ◌==◌,
}
use benri_stream.Platform.{Result, ok, err, map_err}
use benri_stream.Effects.Ports.{StorageError, TranscoderError, transcode_failed, show_storage_error}
use benri_stream.Transcoder.Quality.{QualityLevel, low, level_eq}
use benri_stream.Transcoder.Uploader.Files.{
  PathBuf, TierDir, missing, TickMode, running, final_drain, scan_segments,
  select_uploadable_segments, tier_object_key, synthesize_variant_playlist,
  generate_master_playlist, playlist_filename, master_filename, ts_content_type, hls_content_type,
}

-- A request to the storage: `upload_from_path` or `upload_bytes`.
pub data Upload : Type 0 where
  upload_from_path : (segment_path : PathBuf) (key content_type : String) → Upload
  upload_bytes : (key content content_type : String) → Upload

-- The uploader's state, with its notifier, which is held until it is fired. A tier without an entry
-- of a map has the empty list, or none. Then what the uploader did: its requests with their answers,
-- the latest first, and the number of its notifications.
pub record Uploader : Type 0 where
  pub notifier : Bool
  pub uploaded_segments : QualityLevel → List String
  pub last_published_playlist : QualityLevel → Option String
  pub first_low_segment_uploaded : Bool
  pub master_uploaded : Bool
  pub requests : List (Upload × Result StorageError (Unit {0}))
  pub notified : ℕ

unfoldable pub new : Uploader
new = record {
  notifier = true;
  uploaded_segments = λ level. [];
  last_published_playlist = λ level. none;
  first_low_segment_uploaded = false;
  master_uploaded = false;
  requests = [];
  notified = 0;
}

-- A map with a new value for one tier.
abbrev pub insert : {A : Type 0} → QualityLevel → A → (QualityLevel → A) → QualityLevel → A
insert level a f other = if level_eq level other then a else f other

-- A method that may fail.
abbrev pub Step : Type 0
Step = Uploader → Result TranscoderError (Unit {0}) × Uploader

abbrev pub done : Step
done u = (ok tt, u)

abbrev pub continue : Result TranscoderError (Unit {0}) → Step → Step
continue (ok _) next u = next u
continue (err e) next u = (err e, u)

infixl 5 ◌>>◌
abbrev pub ◌>>◌ : Step → Step → Step
(first >> next) u = let (r, u') = first u in continue r next u'

-- `for x in xs { step(x)?; }`
unfoldable pub each : {A : Type 0} → (A → Step) → List A → Step
each step [] = done
each step (x ∷ xs) = step x >> each step xs

abbrev pub published : QualityLevel → String → Step
published level body u =
    done (record u { last_published_playlist = insert level (some body) u.last_published_playlist })

abbrev pub is_published : Option String → String → Bool
is_published none body = false
is_published (some previous) body = previous == body

abbrev pub is_final : TickMode → Bool
is_final running = false
is_final final_drain = true

unfoldable pub fire_notifier_once : Step
fire_notifier_once u =
    if u.notifier then done (record u { notifier = false; notified = u.notified + 1 }) else done u

abbrev pub mark_master : Step
mark_master u = done (record u { master_uploaded = true })

abbrev pub push_segment : QualityLevel → String → Step
push_segment level filename u = done (record u {
  uploaded_segments = insert level (u.uploaded_segments level ++ filename ∷ []) u.uploaded_segments;
})

abbrev pub mark_first : Step
mark_first u = done (record u { first_low_segment_uploaded = true })

-- The storage answers the n-th request of this uploader by `answer n`.
module _ (answer : ℕ → Result StorageError (Unit {0})) where
  unfoldable pub request : Upload → String → Step
  request upload what u =
      let r = answer (length u.requests) in
      (
        map_err (λ e. transcode_failed (concat (what ∷ show_storage_error e ∷ []))) r,
        record u { requests = (upload, r) ∷ u.requests },
      )

module _ (answer : ℕ → Result StorageError (Unit {0})) (output_prefix : String)
    (quality_levels : List QualityLevel) (has_audio : Bool) where
  abbrev pub publish_body : QualityLevel → String → Step
  publish_body level body u =
      if is_published (u.last_published_playlist level) body
      then done u
      else (request answer
              (upload_bytes (tier_object_key output_prefix level playlist_filename) body
                hls_content_type)
              "upload playlist: "
            >> published level body)
          u

  unfoldable pub publish_variant_playlist_if_changed : QualityLevel → TickMode → Step
  publish_variant_playlist_if_changed level mode u =
      let segments = u.uploaded_segments level in
      if is_empty segments
      then done u
      else publish_body level (synthesize_variant_playlist segments (is_final mode)) u

  abbrev pub request_master : Step
  request_master =
      request answer
        (upload_bytes (concat (output_prefix ∷ master_filename ∷ []))
          (generate_master_playlist quality_levels has_audio) hls_content_type)
        "upload master: "

  unfoldable pub publish_master_and_notify : Step
  publish_master_and_notify u =
      if u.master_uploaded
      then done u
      else (publish_variant_playlist_if_changed low running
            >> request_master
            >> mark_master
            >> fire_notifier_once)
          u

  abbrev pub after_first_segment : QualityLevel → Step
  after_first_segment level u =
      if level_eq level low && not u.first_low_segment_uploaded
      then (mark_first >> publish_master_and_notify) u
      else done u

  -- Whether the local file could be removed shows in the later scans only.
  unfoldable pub upload_named : PathBuf → QualityLevel → String → Step
  upload_named segment_path level filename u =
      if any (λ n. n == filename) (u.uploaded_segments level)
      then done u
      else (request answer
              (upload_from_path segment_path (tier_object_key output_prefix level filename)
                ts_content_type)
              "upload segment: "
            >> push_segment level filename
            >> after_first_segment level)
          u

  abbrev pub upload_by_name : PathBuf → QualityLevel → Option String → Step
  upload_by_name segment_path level none = done
  upload_by_name segment_path level (some filename) = upload_named segment_path level filename

  unfoldable pub upload_one_segment : PathBuf → QualityLevel → Step
  upload_one_segment path level = upload_by_name path level path.file_name

  abbrev pub upload_and_publish : QualityLevel → PathBuf → Step
  upload_and_publish level path =
      upload_one_segment path level >> publish_variant_playlist_if_changed level running

  abbrev pub upload_scanned : QualityLevel → TickMode → Result TranscoderError (List PathBuf) → Step
  upload_scanned level mode (err e) = λ u. (err e, u)
  upload_scanned level mode (ok on_disk) =
      each (upload_and_publish level) (select_uploadable_segments on_disk mode)
      >> publish_variant_playlist_if_changed level mode

  unfoldable pub upload_tier : TierDir → QualityLevel → TickMode → Step
  upload_tier missing level mode = done
  upload_tier dir level mode = upload_scanned level mode (scan_segments dir)

  -- The directories of the tiers, as they are found on this tick. No tier stands twice in
  -- `quality_levels`, so that each is scanned once.
  unfoldable pub tick : (QualityLevel → TierDir) → TickMode → Step
  tick dirs mode = each (λ level. upload_tier (dirs level) level mode) quality_levels

  -- The ticks before the stop signal.
  unfoldable pub polls : List (QualityLevel → TierDir) → Step
  polls = each (λ dirs. tick dirs running)

  -- The whole loop, which the stop signal ends.
  unfoldable pub run : List (QualityLevel → TierDir) → (QualityLevel → TierDir) → Step
  run polled drained = polls polled >> tick drained final_drain
