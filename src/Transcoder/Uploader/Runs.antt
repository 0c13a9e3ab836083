-- ===== src/Transcoder/Uploader/Runs.antt =====
-- The runs of the uploader of crates/infrastructure/src/transcoder/hls_uploader.rs, from its start.
use benri_stream.Prelude.{
  ℕ, String, Bool, false, Option, none, some, List, ◌≡◌, ◌⊎◌, inl, inr, refl, any, here, ◌==◌,
}
use benri_stream.Platform.{Result, ok, err}
use benri_stream.Effects.Ports.{StorageError, TranscoderError}
use benri_stream.Transcoder.Quality.{QualityLevel, low}
use benri_stream.Transcoder.Uploader.Files.{
  PathBuf, TierDir, missing, unreadable, entries, TickMode, running, final_drain,
  select_uploadable_segments,
}
use benri_stream.Transcoder.Uploader.{
  Uploader, new, upload_named, upload_one_segment, upload_by_name, upload_scanned, upload_tier,
  tick, polls, run,
}
use benri_stream.Transcoder.Uploader.Rules.{
  Triple, Triple-done, Triple-fail, Triple-if, Triple-then, Triple-each, Triple-request,
}
use benri_stream.Transcoder.Uploader.Justified.{
  Stored, StoredSegment, master_upload, Playable, segment, AllJustified, Good, Good-new,
  Good-logged,
}
use benri_stream.Transcoder.Uploader.Announced.{
  Live, Live-Blind, Due, Live-logged, push-Due, after_first-Live,
}
use benri_stream.Transcoder.Uploader.Published.{publish-keeps}

pub new-Live : Live new
unfolding Live new
new-Live = inl (refl, refl, refl)

module _ (answer : ℕ → Result StorageError (Unit {0})) (prefix : String)
    (levels : List QualityLevel) (has_audio : Bool) where
  abbrev IsGood : Uploader → Type 0
  IsGood = Good prefix levels has_audio

  upload_named-Live :
      (path : PathBuf) (level : QualityLevel) (name : String)
      → path.file_name ≡ some name
      → Triple IsGood Live Live (upload_named answer prefix levels has_audio path level name)
  unfolding upload_named
  upload_named-Live path level name e =
      Triple-if (λ u. any (λ n. n == name) (u.uploaded_segments level)) _ _
        (Triple-done (λ u g h. h.0))
        (Triple-then {Q = Due level}
          (Triple-then
            {Q = λ u.
              Live u
              × StoredSegment prefix level name u.requests
              × (any (λ n. n == name) (u.uploaded_segments level) ≡ false)}
            (Triple-request answer _ _
              (λ u g h r. Good-logged prefix levels has_audio u _ r g (segment path level name e))
              (λ u g h. (Live-logged u _ _ h.0, (path, here refl), h.1)))
            (push-Due answer prefix levels has_audio level name))
          (after_first-Live answer prefix levels has_audio level))

  upload_by_name-Live :
      (path : PathBuf) (level : QualityLevel) (name : Option String)
      → path.file_name ≡ name
      → Triple IsGood Live Live (upload_by_name answer prefix levels has_audio path level name)
  upload_by_name-Live path level none e = Triple-done (λ u g h. h)
  upload_by_name-Live path level (some name) e = upload_named-Live path level name e

  upload_one-Live :
      (path : PathBuf) (level : QualityLevel)
      → Triple IsGood Live Live (upload_one_segment answer prefix levels has_audio path level)
  unfolding upload_one_segment
  upload_one-Live path level = upload_by_name-Live path level path.file_name refl

  upload_scanned-Live :
      (level : QualityLevel) (mode : TickMode) (r : Result TranscoderError (List PathBuf))
      → Triple IsGood Live Live (upload_scanned answer prefix levels has_audio level mode r)
  upload_scanned-Live level mode (err e) = Triple-fail e
  upload_scanned-Live level mode (ok on_disk) =
      let publish = publish-keeps answer prefix levels has_audio Live Live-Blind level in
      Triple-then
        (Triple-each _ (select_uploadable_segments on_disk mode)
          (λ path i. Triple-then (upload_one-Live path level) (publish running)))
        (publish mode)

  upload_tier-Live :
      (dir : TierDir) (level : QualityLevel) (mode : TickMode)
      → Triple IsGood Live Live (upload_tier answer prefix levels has_audio dir level mode)
  unfolding upload_tier
  upload_tier-Live missing level mode = Triple-done (λ u g h. h)
  upload_tier-Live (unreadable m) level mode = upload_scanned-Live level mode _
  upload_tier-Live (entries paths) level mode = upload_scanned-Live level mode _

  tick-Live :
      (dirs : QualityLevel → TierDir) (mode : TickMode)
      → Triple IsGood Live Live (tick answer prefix levels has_audio dirs mode)
  unfolding tick
  tick-Live dirs mode = Triple-each _ levels (λ level i. upload_tier-Live (dirs level) level mode)

  polls-Live :
      (polled : List (QualityLevel → TierDir))
      → Triple IsGood Live Live (polls answer prefix levels has_audio polled)
  unfolding polls
  polls-Live polled = Triple-each _ polled (λ dirs i. tick-Live dirs running)

  pub run-Live :
      (polled : List (QualityLevel → TierDir)) (drained : QualityLevel → TierDir)
      → Triple IsGood Live Live (run answer prefix levels has_audio polled drained)
  unfolding run
  run-Live polled drained = Triple-then (polls-Live polled) (tick-Live drained final_drain)

  -- Whatever is found on the disk and however the storage answers, each request of a run is justified
  -- by the confirmed ones before it: a playlist lists at least one segment, none twice, and only
  -- stored ones, and the master is asked for when the low tier has such a playlist.
  pub run-AllJustified :
      (polled : List (QualityLevel → TierDir)) (drained : QualityLevel → TierDir)
      → AllJustified prefix levels has_audio
          (run answer prefix levels has_audio polled drained new).1.requests
  run-AllJustified polled drained =
      ((run-Live polled drained).at new (Good-new prefix levels has_audio) new-Live).0.justified

  -- A run notifies not at all or once, and then the master playlist is stored, with a playlist of the
  -- low tier and its segments.
  pub run-notified :
      (polled : List (QualityLevel → TierDir)) (drained : QualityLevel → TierDir)
      → let u = (run answer prefix levels has_audio polled drained new).1 in
        (u.notified ≡ 0)
        ⊎ ((u.notified ≡ 1)
            × Playable prefix low u.requests
            × Stored (master_upload prefix levels has_audio) u.requests)
  run-notified polled drained =
      let g = ((run-Live polled drained).at new (Good-new prefix levels has_audio) new-Live).0 in
      elim g.notice [
        | inl (_, zero) ↦ inl zero
        | inr (_, one, m) ↦ let (p, s) = g.master m in inr (one, p, s)
      ]
