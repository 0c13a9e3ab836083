-- ===== src/Transcoder/Pipeline/Outcome.antt =====
-- What a successful transcode_to_hls of crates/infrastructure/src/transcoder/gstreamer.rs has done.
use benri_stream.Prelude.{
  ℕ, String, Bool, true, false, Option, none, some, List, [], ◌∷◌, ◌≡◌, ◌≢◌, refl,
}
use benri_stream.Platform.{Result, ok, err}
use benri_stream.Effects.Ports.{StorageError}
use benri_stream.Transcoder.Quality.{QualityLevel}
use benri_stream.Transcoder.Uploader.{new, run}
use benri_stream.Transcoder.Pipeline.{
  eos, error, other, BusPoll, cancelled, popped, Outcome, look, bus_loop, drive_pipeline_to_eos,
  pipeline_first, uploader_first, Attempt, joined, early_exit, after_pipeline, race, started,
  transcode_to_hls,
}

-- The end of the stream comes on the bus, and before it no error and no cancellation.
pub data ReachesEos : List BusPoll → Type 0 where
  now : (bus : List BusPoll) → ReachesEos (popped (some eos) ∷ bus)
  nothing : (bus : List BusPoll) → ReachesEos bus → ReachesEos (popped none ∷ bus)
  skipped : (bus : List BusPoll) → ReachesEos bus → ReachesEos (popped (some other) ∷ bus)

bus_loop-ok : (bus : List BusPoll) → bus_loop bus ≡ some (ok tt) → ReachesEos bus
unfolding bus_loop look
bus_loop-ok [] e = absurd (cc)
bus_loop-ok (cancelled ∷ bus) e = absurd (cc)
bus_loop-ok (popped none ∷ bus) e = nothing bus (bus_loop-ok bus e)
bus_loop-ok (popped (some eos) ∷ bus) e = now bus
bus_loop-ok (popped (some (error t)) ∷ bus) e = absurd (cc)
bus_loop-ok (popped (some other) ∷ bus) e = skipped bus (bus_loop-ok bus e)

drive-ok :
    (playing : Result String (Unit {0})) (bus : List BusPoll)
    → drive_pipeline_to_eos playing bus ≡ some (ok tt)
    → ReachesEos bus
unfolding drive_pipeline_to_eos
drive-ok (ok _) bus e = bus_loop-ok bus e
drive-ok (err x) bus e = absurd (cc)

first-ok :
    (p u : Option String) (pipeline uploader : Outcome)
    → some (pipeline_first (joined p pipeline) (joined u uploader)) ≡ some (ok tt)
    → (pipeline ≡ ok tt) × (uploader ≡ ok tt)
unfolding pipeline_first
first-ok none none (ok _) (ok _) e = (refl, refl)
first-ok none none (ok _) (err x) e = absurd (cc)
first-ok none none (err x) uploader e = absurd (cc)
first-ok none (some y) pipeline uploader e = absurd (cc)
first-ok (some y) u pipeline uploader e = absurd (cc)

module _ (answer : ℕ → Result StorageError (Unit {0})) (prefix : String)
    (levels : List QualityLevel) (has_audio : Bool) where
  exit-ok :
      (panic : Option String) (outcome : Outcome)
      → early_exit answer prefix levels has_audio panic outcome ≢ some (ok tt)
  unfolding uploader_first
  exit-ok (some t) outcome e = absurd (cc)
  exit-ok none (ok _) e = absurd (cc)
  exit-ok none (err x) e = absurd (cc)

  after-ok :
      (a : Attempt) (o : Option Outcome)
      → after_pipeline answer prefix levels has_audio a o ≡ some (ok tt)
      → (o ≡ some (ok tt)) × ((run answer prefix levels has_audio a.polled a.drained new).0 ≡ ok tt)
  after-ok a none e = absurd (cc)
  after-ok a (some pipeline) e =
      let (p, u) = first-ok a.pipeline_panic a.uploader_panic pipeline _ e in (rw p refl, u)

  race-ok :
      (b : Bool) (a : Attempt)
      → race answer prefix levels has_audio b a ≡ some (ok tt)
      → ReachesEos a.bus × ((run answer prefix levels has_audio a.polled a.drained new).0 ≡ ok tt)
  race-ok true a e = absurd (exit-ok a.uploader_panic _ e)
  race-ok false a e =
      let (driven, uploaded) = after-ok a (drive_pipeline_to_eos a.playing a.bus) e in
      (drive-ok a.playing a.bus driven, uploaded)

  started-ok :
      (setup : Outcome) (a : Attempt)
      → started answer prefix levels has_audio setup a ≡ some (ok tt)
      → ReachesEos a.bus × ((run answer prefix levels has_audio a.polled a.drained new).0 ≡ ok tt)
  started-ok (ok _) a e = race-ok a.is_uploader_first a e
  started-ok (err x) a e = absurd (cc)

  -- When transcode_to_hls answers Ok, the pipeline came to the end of the stream without an error or a
  -- cancellation, and the uploader's run, its last tick included, succeeded.
  pub transcode_to_hls-ok :
      (a : Attempt)
      → transcode_to_hls answer prefix levels has_audio a ≡ some (ok tt)
      → ReachesEos a.bus × ((run answer prefix levels has_audio a.polled a.drained new).0 ≡ ok tt)
  unfolding transcode_to_hls
  transcode_to_hls-ok a e = started-ok a.setup a e
