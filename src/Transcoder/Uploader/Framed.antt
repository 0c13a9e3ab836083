-- ===== src/Transcoder/Uploader/Framed.antt =====
-- Properties that the methods of crates/infrastructure/src/transcoder/hls_uploader.rs keep, whether
-- they succeed or fail, when their changes of the state keep them.
use benri_stream.Prelude.{
  ℕ, ◌+◌, String, Bool, false, Option, none, some, List, ◌≡◌, refl, is_empty, any, ◌==◌, not, ◌&&◌,
  ◌⊎◌, inl, inr,
}
use benri_stream.Platform.{Result, ok, err}
use benri_stream.Effects.Ports.{StorageError, TranscoderError}
use benri_stream.Transcoder.Quality.{QualityLevel, low, medium, high, level_eq}
use benri_stream.Transcoder.Uploader.Files.{
  PathBuf, TierDir, missing, unreadable, entries, TickMode, running, select_uploadable_segments,
  synthesize_variant_playlist, tier_object_key,
}
use benri_stream.Transcoder.Uploader.{
  Uploader, Upload, upload_from_path, upload_bytes, publish_variant_playlist_if_changed,
  publish_body, published, is_published, is_final, fire_notifier_once, mark_master,
  publish_master_and_notify, push_segment, mark_first, after_first_segment, upload_named,
  upload_one_segment, upload_and_publish, upload_by_name, upload_scanned, upload_tier,
}
use benri_stream.Transcoder.Uploader.Rules.{
  Always, Triple, Triple-done, Triple-set, Triple-fail, Triple-if, Triple-weaken, Triple-then,
  Triple-each, Triple-request, logged,
}

abbrev pub key_of : Upload → String
key_of (upload_from_path segment_path key content_type) = key
key_of (upload_bytes key content content_type) = key

-- The uploads of a tier are of its own files, or else it is the low one.
abbrev pub Sent : String → QualityLevel → Upload → Type 0
Sent prefix level x =
    (level ≡ low) ⊎ ((filename : String) × (key_of x ≡ tier_object_key prefix level filename))

-- The changes that the uploads of one tier make, each of which keeps `I`.
pub record Closed (prefix : String) (level : QualityLevel) (I : Uploader → Type 0) : Type 0 where
  pub log :
      (u : Uploader) (x : Upload) (r : Result StorageError (Unit {0}))
      → Sent prefix level x
      → I u
      → I (logged u x r)
  pub push : (u : Uploader) (name : String) → I u → I (push_segment level name u).1
  pub publish : (u : Uploader) (body : String) → I u → I (published level body u).1
  pub first : (u : Uploader) → level ≡ low → I u → I (mark_first u).1
  pub mark : (u : Uploader) → level ≡ low → I u → I (mark_master u).1
  pub fire :
      (u : Uploader)
      → level ≡ low
      → I u
      → I (record u { notifier = false; notified = u.notified + 1 })

module _ (answer : ℕ → Result StorageError (Unit {0})) (prefix : String)
    (levels : List QualityLevel) (has_audio : Bool) {I : Uploader → Type 0} where
  pub publish-frame :
      (level : QualityLevel) (mode : TickMode)
      → Closed prefix level I
      → Triple I Always Always
          (publish_variant_playlist_if_changed answer prefix levels has_audio level mode)
  unfolding publish_variant_playlist_if_changed
  publish-frame level mode c =
      Triple-if (λ u. is_empty (u.uploaded_segments level)) _ _ (Triple-done (λ u g h. tt))
        (record {
          at = λ u g h.
              (body u (synthesize_variant_playlist (u.uploaded_segments level) (is_final mode))).at
                u g tt;
        })
    where
      body :
          Uploader
          → (text : String)
          → Triple I Always Always (publish_body answer prefix levels has_audio level text)
      body v text =
          Triple-if (λ u. is_published (u.last_published_playlist level) text) _ _
            (Triple-done (λ u g h. tt))
            (Triple-then {Q = Always}
              (Triple-request answer _ _ (λ u g h r. c.log u _ r (inr (_, refl)) g) (λ u g h. tt))
              (Triple-set (λ u. (published level text u).1) (λ u g h. (c.publish u text g, tt))))

  master-frame :
      Closed prefix low I
      → Triple I Always Always (publish_master_and_notify answer prefix levels has_audio)
  unfolding publish_master_and_notify fire_notifier_once
  master-frame c =
      Triple-if (λ u. u.master_uploaded) _ _ (Triple-done (λ u g h. tt))
        (Triple-then {Q = Always}
          (Triple-then {Q = Always}
            (Triple-then {Q = Always}
              (Triple-weaken {Q = Always} (publish-frame low running c) (λ u g h. tt) (λ u q. tt))
              (Triple-request answer _ _ (λ u g h r. c.log u _ r (inl refl) g) (λ u g h. tt)))
            (Triple-set (λ u. (mark_master u).1) (λ u g h. (c.mark u refl g, tt))))
          (Triple-if (λ u. u.notifier) _ _
            (Triple-set (λ u. record u { notifier = false; notified = u.notified + 1 })
              (λ u g h. (c.fire u refl g, tt)))
            (Triple-done (λ u g h. tt))))

  pub after_first-frame :
      (level : QualityLevel)
      → Closed prefix level I
      → Triple I Always Always (after_first_segment answer prefix levels has_audio level)
  after_first-frame low c =
      Triple-if (λ u. level_eq low low && not u.first_low_segment_uploaded) _ _
        (Triple-then {Q = Always}
          (Triple-set (λ u. (mark_first u).1) (λ u g h. (c.first u refl g, tt))) (master-frame c))
        (Triple-done (λ u g h. tt))
  after_first-frame medium c = Triple-done (λ u g h. tt)
  after_first-frame high c = Triple-done (λ u g h. tt)

  upload_named-frame :
      (path : PathBuf) (level : QualityLevel) (name : String)
      → Closed prefix level I
      → Triple I Always Always (upload_named answer prefix levels has_audio path level name)
  unfolding upload_named
  upload_named-frame path level name c =
      Triple-if (λ u. any (λ n. n == name) (u.uploaded_segments level)) _ _
        (Triple-done (λ u g h. tt))
        (Triple-then {Q = Always}
          (Triple-then {Q = Always}
            (Triple-request answer _ _ (λ u g h r. c.log u _ r (inr (_, refl)) g) (λ u g h. tt))
            (Triple-set (λ u. (push_segment level name u).1) (λ u g h. (c.push u name g, tt))))
          (after_first-frame level c))

  pub upload_one-frame :
      (path : PathBuf) (level : QualityLevel)
      → Closed prefix level I
      → Triple I Always Always (upload_one_segment answer prefix levels has_audio path level)
  unfolding upload_one_segment
  upload_one-frame path level c = by_name path.file_name
    where
      by_name :
          (o : Option String)
          → Triple I Always Always (upload_by_name answer prefix levels has_audio path level o)
      by_name none = Triple-done (λ u g h. tt)
      by_name (some name) = upload_named-frame path level name c

  -- One turn of the loop of `upload_tier`.
  pub turn-frame :
      (level : QualityLevel)
      → Closed prefix level I
      → (path : PathBuf)
      → Triple I Always Always (upload_and_publish answer prefix levels has_audio level path)
  turn-frame level c path =
      Triple-then {Q = Always} (upload_one-frame path level c) (publish-frame level running c)

  upload_scanned-frame :
      (level : QualityLevel) (mode : TickMode) (r : Result TranscoderError (List PathBuf))
      → Closed prefix level I
      → Triple I Always Always (upload_scanned answer prefix levels has_audio level mode r)
  upload_scanned-frame level mode (err e) c = Triple-fail e
  upload_scanned-frame level mode (ok on_disk) c =
      Triple-then {Q = Always}
        (Triple-each _ (select_uploadable_segments on_disk mode)
          (λ path i. turn-frame level c path))
        (publish-frame level mode c)

  pub upload_tier-frame :
      (dir : TierDir) (level : QualityLevel) (mode : TickMode)
      → Closed prefix level I
      → Triple I Always Always (upload_tier answer prefix levels has_audio dir level mode)
  unfolding upload_tier
  upload_tier-frame missing level mode c = Triple-done (λ u g h. tt)
  upload_tier-frame (unreadable m) level mode c = upload_scanned-frame level mode _ c
  upload_tier-frame (entries paths) level mode c = upload_scanned-frame level mode _ c
