-- ===== src/Transcoder/Uploader/Finished.antt =====
-- What a run of crates/infrastructure/src/transcoder/hls_uploader.rs has done when it succeeds.
use benri_stream.Prelude.{
  ℕ, String, Bool, true, false, some, List, [], ◌∷◌, ◌≡◌, ◌≢◌, ◌∙◌, In-cons, inl, inr, refl, sym,
  ap, any, In, any_of_In, Bool-cases,
}
use benri_stream.Platform.{Result, ok}
use benri_stream.Effects.Ports.{StorageError}
use benri_stream.Transcoder.Quality.{QualityLevel, low, level_eq, level_eq→eq}
use benri_stream.Transcoder.Uploader.Files.{
  has_ts_extension, PathBuf, TierDir, missing, unreadable, entries, TickMode, running, final_drain,
  scan_segments, synthesize_variant_playlist,
}
use benri_stream.Transcoder.Uploader.{Uploader, Upload, new, upload_tier, tick, polls, run}
use benri_stream.Transcoder.Uploader.Rules.{
  Always, Triple, Triple-done, Triple-fail, Triple-weaken, Triple-then, Triple-each, Triple-moved,
  Triple-each_all,
}
use benri_stream.Transcoder.Uploader.Justified.{
  Stored, Nonempty, StoredSegment, playlist_upload, Good-new,
}
use benri_stream.Transcoder.Uploader.Framed.{Closed, Sent, key_of, upload_tier-frame}
use benri_stream.Transcoder.Uploader.Keys.{master_key, tier_key-master_key}
use benri_stream.Transcoder.Uploader.Drained.{Complete, Complete-Closed, scanned-Complete}
use benri_stream.Transcoder.Uploader.Announced.{Live}
use benri_stream.Transcoder.Uploader.Runs.{new-Live, run-Live}

In-Nonempty : {A : Type 0} (xs : List A) (x : A) → In x xs → Nonempty xs
In-Nonempty [] x i = elim i [ ]
In-Nonempty (y ∷ xs) x i = refl

any-none :
    {A : Type 0} (p : A → Bool) (xs : List A) (x : A) → any p xs ≡ false → In x xs → p x ≡ false
any-none p xs x e i = elim (Bool-cases (p x)) [
  | inl h ↦ let t = any_of_In p xs x i h in absurd (cc)
  | inr h ↦ h
]

module _ (answer : ℕ → Result StorageError (Unit {0})) (prefix : String)
    (levels : List QualityLevel) (has_audio : Bool) where
  tier-Complete :
      (dir : TierDir) (level : QualityLevel)
      → Triple Always Always
          (Complete dir level)
          (upload_tier answer prefix levels has_audio dir level final_drain)
  unfolding upload_tier Complete scan_segments
  tier-Complete missing level = Triple-done (λ u g h. tt)
  tier-Complete (unreadable m) level =
      Triple-weaken {P' = Always} {Q' = Always} (Triple-fail _) (λ u g h. tt) (λ u q. tt)
  tier-Complete (entries files) level = scanned-Complete answer prefix levels has_audio files level

  -- The uploads of a tier leave another one complete, and make their own complete.
  tier-stays :
      (dirs : QualityLevel → TierDir) (x y : QualityLevel)
      → Triple Always
          (Complete (dirs x) x)
          (Complete (dirs x) x)
          (upload_tier answer prefix levels has_audio (dirs y) y final_drain)
  tier-stays dirs x y = elim (Bool-cases (level_eq y x)) [
    | inl e ↦
        rw (sym (level_eq→eq y x e))
          (Triple-weaken {P' = Always} (tier-Complete (dirs y) y) (λ u g h. tt) (λ u q. q))
    | inr e ↦ Triple-moved (
        upload_tier-frame answer prefix levels has_audio (dirs y) y final_drain
          (Complete-Closed (dirs x) y x e))
  ]

  drain-Complete :
      (dirs : QualityLevel → TierDir)
      → Triple Always Always
          (λ u. (level : QualityLevel) → In level levels → Complete (dirs level) level u)
          (tick answer prefix levels has_audio dirs final_drain)
  unfolding tick
  drain-Complete dirs =
      Triple-each_all (λ level. Complete (dirs level) level) _ levels
        (λ level. tier-Complete (dirs level) level) (tier-stays dirs)

  polls-any :
      (polled : List (QualityLevel → TierDir))
      → Triple Always Always Always (polls answer prefix levels has_audio polled)
  polls-any polled = record { at = λ u g h. (tt, λ e. tt) }

  run-Complete :
      (polled : List (QualityLevel → TierDir)) (drained : QualityLevel → TierDir)
      → Triple Always Always
          (λ u. (level : QualityLevel) → In level levels → Complete (drained level) level u)
          (run answer prefix levels has_audio polled drained)
  unfolding run
  run-Complete polled drained = Triple-then (polls-any polled) (drain-Complete drained)

  -- When a run succeeds, every .ts file that its last tick found in the directory of one of its tiers,
  -- under a name that is a text, is stored under its key, and so is the closed playlist of the tier,
  -- which lists it.
  pub run-IsDrained :
      (polled : List (QualityLevel → TierDir)) (drained : QualityLevel → TierDir)
      (level : QualityLevel) (files : List PathBuf) (path : PathBuf) (name : String)
      → (run answer prefix levels has_audio polled drained new).0 ≡ ok tt
      → In level levels
      → drained level ≡ entries files
      → In path files
      → has_ts_extension path ≡ true
      → path.file_name ≡ some name
      → let u = (run answer prefix levels has_audio polled drained new).1 in
        StoredSegment prefix level name u.requests
        × In name (u.uploaded_segments level)
        × Stored
            (playlist_upload prefix level
              (synthesize_variant_playlist (u.uploaded_segments level) true))
            u.requests
  unfolding Complete
  run-IsDrained polled drained level files path name e il d ip ts en =
      let u = (run answer prefix levels has_audio polled drained new).1 in
      let g =
        ((run-Live answer prefix levels has_audio polled drained).at new
          (Good-new prefix levels has_audio) new-Live).0 in
      let c = ((run-Complete polled drained).at new tt tt).1 e level il in
      let (held, closed) = rw d at c in
      let i = held path name ip ts en in
      (
        g.segments level name i,
        i,
        g.playlists level _ (closed (In-Nonempty (u.uploaded_segments level) name i)),
      )

  -- When a run with the low tier succeeds, and its last tick found a .ts file of this tier, under a name
  -- that is a text, then the notifier was fired once.
  pub run-announced :
      (polled : List (QualityLevel → TierDir)) (drained : QualityLevel → TierDir)
      (files : List PathBuf) (path : PathBuf) (name : String)
      → (run answer prefix levels has_audio polled drained new).0 ≡ ok tt
      → In low levels
      → drained low ≡ entries files
      → In path files
      → has_ts_extension path ≡ true
      → path.file_name ≡ some name
      → (run answer prefix levels has_audio polled drained new).1.notified ≡ 1
  unfolding Live
  run-announced polled drained files path name e il d ip ts en =
      let u = (run answer prefix levels has_audio polled drained new).1 in
      let (_, i, _) = run-IsDrained polled drained low files path name e il d ip ts en in
      elim (((run-Live answer prefix levels has_audio polled drained).at new
          (Good-new prefix levels has_audio) new-Live).1
        e) [ inl (none_yet, _, _) ↦ elim (rw none_yet at i) [ ] | inr (_, _, once) ↦ once ]

  -- What the uploads of the other tiers leave as it is.
  Silent : Uploader → Type 0
  Silent u =
      (u.notified ≡ 0)
      × (u.master_uploaded ≡ false)
      × ((upload : Upload) (r : Result StorageError (Unit {0}))
          → In (upload, r) u.requests
          → key_of upload ≢ master_key prefix)

  Sent-other :
      (level : QualityLevel) (upload : Upload)
      → level_eq level low ≡ false
      → Sent prefix level upload
      → key_of upload ≢ master_key prefix
  Sent-other level upload e (inl s) same = absurd (cc (ap (λ l. level_eq l low) s))
  Sent-other level upload e (inr (filename, k)) same =
      tier_key-master_key prefix level filename (sym k ∙ same)

  Silent-Closed : (level : QualityLevel) → level_eq level low ≡ false → Closed prefix level Silent
  unfolding Silent
  Silent-Closed level e = record {
    log = λ u x r s h. (
      h.0,
      h.1,
      λ upload q i. elim (In-cons i) [
        | inl same ↦ λ k.
            Sent-other level x e s
              (ap (λ (y : Upload × Result StorageError (Unit {0})). key_of y.0) (sym same) ∙ k)
        | inr j ↦ h.2 upload q j
      ],
    );
    push = λ u name h. h;
    publish = λ u body h. h;
    first = λ u s h. h;
    mark = λ u s h. absurd (cc (ap (λ l. level_eq l low) s));
    fire = λ u s h. absurd (cc (ap (λ l. level_eq l low) s));
  }

  -- A run without the low tier never asks the storage to store the master playlist, under whatever
  -- content, never marks it as uploaded, and never notifies.
  pub run-silent :
      (polled : List (QualityLevel → TierDir)) (drained : QualityLevel → TierDir)
      → any (λ level. level_eq level low) levels ≡ false
      → let u = (run answer prefix levels has_audio polled drained new).1 in
        (u.notified ≡ 0)
        × (u.master_uploaded ≡ false)
        × ((upload : Upload) (r : Result StorageError (Unit {0}))
            → In (upload, r) u.requests
            → key_of upload ≢ master_key prefix)
  unfolding run polls tick Silent new
  run-silent polled drained e =
      let quiet : (dirs : QualityLevel → TierDir) (mode : TickMode)
          → Triple Silent Always Always (tick answer prefix levels has_audio dirs mode) =
        λ dirs mode. Triple-each _ levels (λ level i.
          upload_tier-frame answer prefix levels has_audio (dirs level) level mode
            (Silent-Closed level (any-none _ levels level e i))) in
      ((Triple-then {Q = Always} (Triple-each _ polled (λ dirs i. quiet dirs running))
          (quiet drained final_drain)).at
        new (refl, refl, λ upload r i. elim i [ ]) tt).0
