-- ===== src/Transcoder/Pipeline.antt =====
-- `drive_pipeline_to_eos` and `transcode_to_hls` of crates/infrastructure/src/transcoder/gstreamer.rs,
-- on what the GStreamer library and the runtime answer.
pub mod Outcome
use benri_stream.Prelude.{ℕ, String, Bool, true, false, Option, none, some, List, [], ◌∷◌, concat}
use benri_stream.Platform.{Result, ok, err, map_err}
use benri_stream.Effects.Ports.{StorageError, TranscoderError, transcode_failed}
use benri_stream.Transcoder.Quality.{QualityLevel}
use benri_stream.Transcoder.Uploader.Files.{TierDir}
use benri_stream.Transcoder.Uploader.{new, polls, run}

-- The messages of the bus that the loop tells apart; an error with its text.
pub data Message : Type 0 where
  eos : Message
  error : String → Message
  other : Message

-- One turn of the loop: the flag `cancel` is set, or `timed_pop` gives a message or none.
pub data BusPoll : Type 0 where
  cancelled : BusPoll
  popped : Option Message → BusPoll

abbrev pub Outcome : Type 0
Outcome = Result TranscoderError (Unit {0})

-- What a turn decides, if it ends the loop.
unfoldable pub look : BusPoll → Option Outcome
look cancelled = some (err (transcode_failed "cancelled by uploader failure"))
look (popped none) = none
look (popped (some eos)) = some (ok tt)
look (popped (some (error text))) = some (err (transcode_failed text))
look (popped (some other)) = none

abbrev pub or_on : Option Outcome → Option Outcome → Option Outcome
or_on none later = later
or_on (some outcome) later = some outcome

-- The loop over the turns; `none` if it goes on after them.
unfoldable pub bus_loop : List BusPoll → Option Outcome
unfolding look
bus_loop [] = none
bus_loop (poll ∷ bus) = or_on (look poll) (bus_loop bus)

-- `playing` is the answer of `set_state(Playing)`.
unfoldable pub drive_pipeline_to_eos : Result String (Unit {0}) → List BusPoll → Option Outcome
drive_pipeline_to_eos (err e) bus =
    some (err (transcode_failed (concat ("set playing: " ∷ e ∷ []))))
drive_pipeline_to_eos (ok _) bus = bus_loop bus

-- `a.and(b)`
abbrev pub and : Outcome → Outcome → Outcome
and (ok _) b = b
and (err e) b = err e

-- The `select!` of `transcode_to_hls` when the pipeline's task comes first. The `err` of a join is the
-- panic of the task.
unfoldable pub pipeline_first : Result String Outcome → Result String Outcome → Outcome
pipeline_first (err e) uploader = err (transcode_failed (concat ("pipeline task join: " ∷ e ∷ [])))
pipeline_first (ok pipeline) (err e) =
    err (transcode_failed (concat ("uploader task join: " ∷ e ∷ [])))
pipeline_first (ok pipeline) (ok uploader) = and pipeline uploader

-- The same when the uploader's task comes first.
unfoldable pub uploader_first : Result String Outcome → Outcome
uploader_first (ok outcome) = outcome
uploader_first (err e) = err (transcode_failed (concat ("uploader task join: " ∷ e ∷ [])))

-- What happens to a transcoding: the answers of its setup, which the library and the file system give;
-- the turns of the bus; the scans of the uploader's ticks; the panics; and which task comes first.
pub record Attempt : Type 0 where
  pub setup : Outcome
  pub playing : Result String (Unit {0})
  pub bus : List BusPoll
  pub pipeline_panic : Option String
  pub polled : List (QualityLevel → TierDir)
  pub drained : QualityLevel → TierDir
  pub uploader_panic : Option String
  pub is_uploader_first : Bool

-- A task that panics, or its outcome.
abbrev pub joined : Option String → Outcome → Result String Outcome
joined none outcome = ok outcome
joined (some panic) outcome = err panic

module _ (answer : ℕ → Result StorageError (Unit {0})) (output_prefix : String)
    (quality_levels : List QualityLevel) (has_audio : Bool) where
  -- Without the stop signal the uploader ends by an error only.
  abbrev pub early_exit : Option String → Outcome → Option Outcome
  early_exit (some panic) outcome = some (uploader_first (err panic))
  early_exit none (ok _) = none
  early_exit none (err e) = some (uploader_first (ok (err e)))

  abbrev pub after_pipeline : Attempt → Option Outcome → Option Outcome
  after_pipeline a none = none
  after_pipeline a (some pipeline) = some (
      pipeline_first (joined a.pipeline_panic pipeline) (
        joined a.uploader_panic
          (run answer output_prefix quality_levels has_audio a.polled a.drained new).0))

  abbrev pub race : Bool → Attempt → Option Outcome
  race true a =
      early_exit a.uploader_panic
        (polls answer output_prefix quality_levels has_audio a.polled new).0
  race false a = after_pipeline a (drive_pipeline_to_eos a.playing a.bus)

  abbrev pub started : Outcome → Attempt → Option Outcome
  started (err e) a = some (err e)
  started (ok _) a = race a.is_uploader_first a

  -- `none` if it goes on after all of this.
  unfoldable pub transcode_to_hls : Attempt → Option Outcome
  transcode_to_hls a = started a.setup a
