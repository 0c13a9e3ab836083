-- ===== src/Transcoder/Uploader/Published.antt =====
-- publish_variant_playlist_if_changed of crates/infrastructure/src/transcoder/hls_uploader.rs.
use benri_stream.Prelude.{
  ℕ, String, Bool, true, Option, none, some, List, ◌≡◌, inl, inr, refl, ap, subst, is_empty, here,
  Bool-cases, eq_iff,
}
use benri_stream.Platform.{Result, ok}
use benri_stream.Effects.Ports.{StorageError}
use benri_stream.Transcoder.Quality.{QualityLevel}
use benri_stream.Transcoder.Uploader.Files.{TickMode, synthesize_variant_playlist}
use benri_stream.Transcoder.Uploader.{
  Uploader, insert, publish_variant_playlist_if_changed, publish_body, is_published, is_final,
}
use benri_stream.Transcoder.Uploader.Rules.{
  Triple, Triple-done, Triple-set, Triple-if, Triple-weaken, Triple-then, Triple-request,
}
use benri_stream.Transcoder.Uploader.Justified.{
  Requests, Stored, Nonempty, playlist_upload, Playable, IsJustified, playlist, Good, Good-logged,
  Good-published,
}

-- `P` does not look at the requests and the remembered playlists.
unfoldable pub Blind : (Uploader → Type 0) → Type 0
Blind P =
    (u : Uploader) (rs : Requests) (m : QualityLevel → Option String)
    → P u
    → P (record u { requests = rs; last_published_playlist = m })

module _ (answer : ℕ → Result StorageError (Unit {0})) (prefix : String)
    (levels : List QualityLevel) (has_audio : Bool) where
  abbrev IsGood : Uploader → Type 0
  IsGood = Good prefix levels has_audio

  -- The text is the playlist of the tier's segments.
  abbrev Fits : QualityLevel → String → Uploader → Type 0
  Fits level body u =
      (finalize : Bool) × Nonempty (u.uploaded_segments level)
      × (body ≡ synthesize_variant_playlist (u.uploaded_segments level) finalize)

  Fits-IsJustified :
      (level : QualityLevel) (body : String) (u : Uploader)
      → IsGood u
      → Fits level body u
      → IsJustified prefix levels has_audio u.requests (playlist_upload prefix level body)
  Fits-IsJustified level body u g (fin, h, e) =
      rw e (playlist level (u.uploaded_segments level) fin h (g.distinct level) (g.segments level))

  Fits-Playable :
      (level : QualityLevel) (body : String) (u : Uploader)
      → IsGood u
      → Fits level body u
      → Stored (playlist_upload prefix level body) u.requests
      → Playable prefix level u.requests
  Fits-Playable level body u g (fin, h, e) s = (
    u.uploaded_segments level,
    fin,
    h,
    g.segments level,
    subst (λ b. Stored (playlist_upload prefix level b) u.requests) e s,
  )

  is_published-some :
      (o : Option String) (body : String) → is_published o body ≡ true → o ≡ some body
  is_published-some none body e = absurd (cc)
  is_published-some (some previous) body e = ap some ((eq_iff previous body).0 e)

  unpublished :
      (P : Uploader → Type 0) (level : QualityLevel) (mode : TickMode) (u : Uploader)
      → is_empty (u.uploaded_segments level) ≡ true
      → IsGood u
      → P u
      → let s = publish_variant_playlist_if_changed answer prefix levels has_audio level mode in
        IsGood (s u).1 × ((s u).0 ≡ ok tt → P (s u).1)
  unfolding publish_variant_playlist_if_changed
  unpublished P level mode u e g p = rw e (g, λ _. p)

  module _ (P : Uploader → Type 0) (blind : Blind P) where
    publish_body-keeps :
        (level : QualityLevel) (body : String)
        → Triple IsGood
            (λ u. P u × Fits level body u)
            (λ u. P u × Playable prefix level u.requests)
            (publish_body answer prefix levels has_audio level body)
    unfolding Blind
    publish_body-keeps level body =
        Triple-if (λ u. is_published (u.last_published_playlist level) body) _ _
          (Triple-done (λ u g h.
            let s =
              g.playlists level body
                (is_published-some (u.last_published_playlist level) body h.1) in
            (h.0.0, Fits-Playable level body u g h.0.1 s)))
          (Triple-then
            {Q = λ u.
              (P u × Fits level body u) × Stored (playlist_upload prefix level body) u.requests}
            (Triple-request answer _ _
              (λ u g h r.
                Good-logged prefix levels has_audio u _ r g (Fits-IsJustified level body u g h.0.1))
              (λ u g h. ((blind u _ _ h.0.0, h.0.1), here refl)))
            (Triple-set
              (λ u. record u {
                last_published_playlist = insert level (some body) u.last_published_playlist;
              })
              (λ u g h. (
                Good-published prefix levels has_audio u level body g h.1,
                (blind u _ _ h.0.0, Fits-Playable level body u g h.0.1 h.1),
              ))))

    -- A playlist of a tier with segments is published, or was.
    pub publish-Playable :
        (level : QualityLevel) (mode : TickMode)
        → Triple IsGood
            (λ u. P u × Nonempty (u.uploaded_segments level))
            (λ u. P u × Playable prefix level u.requests)
            (publish_variant_playlist_if_changed answer prefix levels has_audio level mode)
    unfolding publish_variant_playlist_if_changed
    publish-Playable level mode =
        Triple-if (λ u. is_empty (u.uploaded_segments level)) _ _
          (Triple-done (λ u g h. absurd (cc)))
          (record {
            at = λ u g h.
                (publish_body-keeps level
                    (synthesize_variant_playlist (u.uploaded_segments level) (is_final mode))).at
                  u g (h.0.0, (is_final mode, h.1, refl));
          })

    pub publish-keeps :
        (level : QualityLevel) (mode : TickMode)
        → Triple IsGood P P
            (publish_variant_playlist_if_changed answer prefix levels has_audio level mode)
    publish-keeps level mode = record {
      at = λ u g p. elim (Bool-cases (is_empty (u.uploaded_segments level))) [
        | inl e ↦ unpublished P level mode u e g p
        | inr e ↦
            (Triple-weaken {P = λ v. P v × Nonempty (v.uploaded_segments level)}
                (publish-Playable level mode) (λ v i h. h) (λ v q. q.0)).at
              u g (p, e)
      ];
    }
