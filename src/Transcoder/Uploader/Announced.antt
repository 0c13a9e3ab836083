-- ===== src/Transcoder/Uploader/Announced.antt =====
-- What the first segment of the low tier calls for in the uploader of crates/infrastructure/src/transcoder/hls_uploader.rs.
use benri_stream.Prelude.{
  ℕ, ◌+◌, String, Bool, true, false, List, [], ◌∷◌, ◌++◌, ◌≡◌, ◌⊎◌, inl, inr, refl, here, arith,
  not, ◌&&◌, any, ◌==◌,
}
use benri_stream.Platform.{Result}
use benri_stream.Effects.Ports.{StorageError}
use benri_stream.Transcoder.Quality.{QualityLevel, low, medium, high, level_eq}
use benri_stream.Transcoder.Uploader.Files.{running}
use benri_stream.Transcoder.Uploader.{
  Uploader, Upload, insert, fire_notifier_once, publish_master_and_notify, push_segment, mark_first,
  after_first_segment,
}
use benri_stream.Transcoder.Uploader.Rules.{
  Triple, Triple-done, Triple-set, Triple-if, Triple-weaken, Triple-then, Triple-request, logged,
}
use benri_stream.Transcoder.Uploader.Justified.{
  Stored, Nonempty, StoredSegment, master_upload, Playable, master, Good, Good-logged, Good-pushed,
  later-Playable,
}
use benri_stream.Transcoder.Uploader.Published.{Blind, publish-Playable}

-- Either nothing of the low tier is uploaded, or its first segment was announced.
unfoldable pub Live : Uploader → Type 0
Live u =
    ((u.uploaded_segments low ≡ [])
      × (u.first_low_segment_uploaded ≡ false)
      × (u.master_uploaded ≡ false))
    ⊎ (Nonempty (u.uploaded_segments low)
        × (u.first_low_segment_uploaded ≡ true)
        × (u.notified ≡ 1))

-- After a segment of the tier is uploaded, before what its first one calls for.
unfoldable pub Due : QualityLevel → Uploader → Type 0
Due low u =
    Nonempty (u.uploaded_segments low)
    × (((u.first_low_segment_uploaded ≡ false) × (u.master_uploaded ≡ false))
        ⊎ ((u.first_low_segment_uploaded ≡ true) × (u.notified ≡ 1)))
Due medium u = Live u
Due high u = Live u

-- Before the master playlist.
Ready : Uploader → Type 0
Ready u =
    Nonempty (u.uploaded_segments low)
    × (u.first_low_segment_uploaded ≡ true)
    × (u.master_uploaded ≡ false)

pub Live-Blind : Blind Live
unfolding Blind Live
Live-Blind u rs m p = p

Ready-Blind : Blind Ready
unfolding Blind Ready
Ready-Blind u rs m p = p

Due-Blind : (level : QualityLevel) → Blind (Due level)
unfolding Blind Due Live
Due-Blind low u rs m p = p
Due-Blind medium u rs m p = p
Due-Blind high u rs m p = p

pub Live-logged :
    (u : Uploader) (upload : Upload) (r : Result StorageError (Unit {0}))
    → Live u
    → Live (logged u upload r)
unfolding Live
Live-logged u upload r h = h

append-Nonempty : {A : Type 0} (xs : List A) (x : A) → Nonempty (xs ++ x ∷ [])
append-Nonempty [] x = refl
append-Nonempty (y ∷ xs) x = refl

pushed-Due :
    (level : QualityLevel) (name : String) (u : Uploader)
    → Live u
    → Due level (record u {
      uploaded_segments = insert level (u.uploaded_segments level ++ name ∷ []) u.uploaded_segments;
    })
unfolding Due Live
pushed-Due low name u h = (
  append-Nonempty (u.uploaded_segments low) name,
  elim h [ inl (_, f, m) ↦ inl (f, m) | inr (_, t, n) ↦ inr (t, n) ],
)
pushed-Due medium name u h = h
pushed-Due high name u h = h

-- The low tier has its segments, and its master playlist is marked.
Marked : Uploader → Type 0
Marked u =
    Nonempty (u.uploaded_segments low)
    × (u.first_low_segment_uploaded ≡ true)
    × (u.master_uploaded ≡ true)

module _ (answer : ℕ → Result StorageError (Unit {0})) (prefix : String)
    (levels : List QualityLevel) (has_audio : Bool) where
  abbrev IsGood : Uploader → Type 0
  IsGood = Good prefix levels has_audio

  fire-Live : Triple IsGood Marked Live fire_notifier_once
  unfolding fire_notifier_once Live Marked
  fire-Live =
      Triple-if (λ u. u.notifier) _ _
        (Triple-set (λ u. record u { notifier = false; notified = u.notified + 1 })
          (λ u g h. elim g.notice [
            | inl (armed, zero) ↦ (
              record {
                segments = g.segments;
                distinct = g.distinct;
                playlists = g.playlists;
                justified = g.justified;
                master = g.master;
                notice = inr (refl, omega arith, h.0.2);
              },
              inr (h.0.0, h.0.1, omega arith),
            )
            | inr (fired, _, _) ↦ absurd (cc)
          ]))
        (Triple-done (λ u g h. elim g.notice [
          | inl (armed, zero) ↦ absurd (cc)
          | inr (fired, once, _) ↦ inr (h.0.0, h.0.1, once)
        ]))

  -- The master is justified by a playable low tier, and marked when it is stored.
  master-Live : Triple IsGood Ready Live (publish_master_and_notify answer prefix levels has_audio)
  unfolding publish_master_and_notify Ready Marked Blind
  master-Live =
      Triple-if (λ u. u.master_uploaded) _ _ (Triple-done (λ u g h. absurd (cc)))
        (Triple-then {Q = Marked}
          (Triple-then
            {Q = λ u.
              (Ready u × Playable prefix low u.requests)
              × Stored (master_upload prefix levels has_audio) u.requests}
            (Triple-then {Q = λ u. Ready u × Playable prefix low u.requests}
              (Triple-weaken
                (publish-Playable answer prefix levels has_audio Ready Ready-Blind low running)
                (λ u g h. (h.0, h.0.0)) (λ u q. q))
              (Triple-request answer _ _
                (λ u g h r. Good-logged prefix levels has_audio u _ r g (master h.1))
                (λ u g h.
                  ((h.0, later-Playable prefix levels has_audio low u.requests _ h.1), here refl))))
            (Triple-set (λ u. record u { master_uploaded = true })
              (λ u g h. (
                record {
                  segments = g.segments;
                  distinct = g.distinct;
                  playlists = g.playlists;
                  justified = g.justified;
                  master = λ _. (h.0.1, h.1);
                  notice = elim g.notice [ inl n ↦ inl n | inr (f, o, m) ↦ inr (f, o, refl) ];
                },
                (h.0.0.0, h.0.0.1, refl),
              ))))
          fire-Live)

  pub push-Due :
      (level : QualityLevel) (name : String)
      → Triple IsGood
          (λ u.
            Live u
            × StoredSegment prefix level name u.requests
            × (any (λ n. n == name) (u.uploaded_segments level) ≡ false))
          (Due level)
          (push_segment level name)
  push-Due level name =
      Triple-set
        (λ u. record u {
          uploaded_segments =
              insert level (u.uploaded_segments level ++ name ∷ []) u.uploaded_segments;
        })
        (λ u g h.
          (Good-pushed prefix levels has_audio u level name g h.1 h.2, pushed-Due level name u h.0))

  mark_first-Ready :
      Triple IsGood
        (λ u. Due low u × ((level_eq low low && not u.first_low_segment_uploaded) ≡ true))
        Ready
        mark_first
  unfolding Due Ready
  mark_first-Ready =
      Triple-set (λ u. record u { first_low_segment_uploaded = true })
        (λ u g h. (
          record {
            segments = g.segments;
            distinct = g.distinct;
            playlists = g.playlists;
            justified = g.justified;
            master = g.master;
            notice = g.notice;
          },
          elim h.0.1 [ inl (f, m) ↦ (h.0.0, refl, m) | inr (t, n) ↦ absurd (cc) ],
        ))

  pub after_first-Live :
      (level : QualityLevel)
      → Triple IsGood (Due level) Live (after_first_segment answer prefix levels has_audio level)
  unfolding Due Live
  after_first-Live low =
      Triple-if (λ u. level_eq low low && not u.first_low_segment_uploaded) _ _
        (Triple-then mark_first-Ready master-Live)
        (Triple-done
          (λ u g h. elim h.0.1 [ inl (f, m) ↦ absurd (cc) | inr (t, n) ↦ inr (h.0.0, t, n) ]))
  after_first-Live medium = Triple-done (λ u g h. h)
  after_first-Live high = Triple-done (λ u g h. h)
