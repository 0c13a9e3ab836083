-- ===== src/Transcoder/Uploader/Drained.antt =====
-- What is in the storage after the last tick of crates/infrastructure/src/transcoder/hls_uploader.rs.
use benri_stream.Prelude.{
  ℕ, String, Bool, true, false, Option, none, some, List, [], ◌∷◌, ◌≡◌, ◌⊎◌, inl, inr, refl, ap,
  is_empty, In, here, there, In-cons, In-keep_back, keep, Bool-cases, eq_iff,
}
use benri_stream.Platform.{Result}
use benri_stream.Effects.Ports.{StorageError}
use benri_stream.Transcoder.Quality.{QualityLevel, level_eq}
use benri_stream.Transcoder.Uploader.Files.{
  has_ts_extension, insert_path, sort_paths, leb_bytes, PathBuf, TierDir, missing, unreadable,
  entries, final_drain, scan_segments, select_uploadable_segments, synthesize_variant_playlist,
}
use benri_stream.Transcoder.Uploader.{
  Uploader, publish_variant_playlist_if_changed, publish_body, published, is_published,
  upload_scanned,
}
use benri_stream.Transcoder.Uploader.Rules.{
  Always, Triple, Triple-done, Triple-set, Triple-if, Triple-weaken, Triple-then, Triple-request,
  Triple-moved, Triple-and,
}
use benri_stream.Transcoder.Uploader.Justified.{Nonempty}
use benri_stream.Transcoder.Uploader.Held.{
  Holds, Uploads, Uploads-Closed, turns-hold, level_eq_refl,
}
use benri_stream.Transcoder.Uploader.Framed.{publish-frame, Closed}

-- The files of the directory are uploaded, and the playlist that lists them is closed.
unfoldable pub Complete : TierDir → QualityLevel → Uploader → Type 0
Complete (entries files) level u =
    ((path : PathBuf) (name : String)
      → In path files
      → has_ts_extension path ≡ true
      → path.file_name ≡ some name
      → In name (u.uploaded_segments level))
    × (Nonempty (u.uploaded_segments level)
        → u.last_published_playlist level
          ≡ some (synthesize_variant_playlist (u.uploaded_segments level) true))
Complete _ level u = Unit {0}

pub Complete-Closed :
    {prefix : String} (dir : TierDir) (other level : QualityLevel)
    → level_eq other level ≡ false
    → Closed prefix other (Complete dir level)
unfolding Complete
Complete-Closed missing other level e = record {
  log = λ u x r s i. i;
  push = λ u added i. i;
  publish = λ u body i. i;
  first = λ u s i. i;
  mark = λ u s i. i;
  fire = λ u s i. i;
}
Complete-Closed (unreadable m) other level e = record {
  log = λ u x r s i. i;
  push = λ u added i. i;
  publish = λ u body i. i;
  first = λ u s i. i;
  mark = λ u s i. i;
  fire = λ u s i. i;
}
Complete-Closed (entries files) other level e = record {
  log = λ u x r s i. i;
  push = λ u added i. rw e i;
  publish = λ u body i. rw e i;
  first = λ u s i. i;
  mark = λ u s i. i;
  fire = λ u s i. i;
}

In-insert_path : (p a : PathBuf) (qs : List PathBuf) → (a ≡ p) ⊎ In a qs → In a (insert_path p qs)
unfolding insert_path
In-insert_path p a [] (inl e) = here e
In-insert_path p a [] (inr i) = elim i [ ]
In-insert_path p a (q ∷ qs) h = elim (Bool-cases (leb_bytes p.bytes q.bytes)) [
  | inl e ↦ rw e (elim h [ inl s ↦ here s | inr i ↦ there i ])
  | inr e ↦ rw e (elim h [
    | inl s ↦ there (In-insert_path p a qs (inl s))
    | inr i ↦ elim (In-cons i) [ inl s ↦ here s | inr j ↦ there (In-insert_path p a qs (inr j)) ]
  ])
]

In-sort_paths : (a : PathBuf) (ps : List PathBuf) → In a ps → In a (sort_paths ps)
unfolding sort_paths
In-sort_paths a [] i = i
In-sort_paths a (p ∷ ps) i = elim (In-cons i) [
  | inl s ↦ In-insert_path p a (sort_paths ps) (inl s)
  | inr j ↦ In-insert_path p a (sort_paths ps) (inr (In-sort_paths a ps j))
]

is_published-some : (o : Option String) (body : String) → is_published o body ≡ true → o ≡ some body
is_published-some none body e = absurd (cc)
is_published-some (some previous) body e = ap some ((eq_iff previous body).0 e)

held-Closed :
    {prefix : String} (level : QualityLevel) (paths : List PathBuf)
    → Closed prefix level (λ u. (path : PathBuf) → In path paths → Uploads level path u)
held-Closed {prefix} level paths = record {
  log = λ u x r s h path i.
      (Uploads-Closed {prefix = prefix} level level path).log u x r s (h path i);
  push = λ u added h path i.
      (Uploads-Closed {prefix = prefix} level level path).push u added (h path i);
  publish = λ u body h path i.
      (Uploads-Closed {prefix = prefix} level level path).publish u body (h path i);
  first = λ u e h path i. (Uploads-Closed {prefix = prefix} level level path).first u e (h path i);
  mark = λ u e h path i. (Uploads-Closed {prefix = prefix} level level path).mark u e (h path i);
  fire = λ u e h path i. (Uploads-Closed {prefix = prefix} level level path).fire u e (h path i);
}

module _ (answer : ℕ → Result StorageError (Unit {0})) (prefix : String)
    (levels : List QualityLevel) (has_audio : Bool) where
  -- The remembered playlist of the tier is the closed one, if it has segments.
  Finalized : QualityLevel → Uploader → Type 0
  Finalized level u =
      Nonempty (u.uploaded_segments level)
      → u.last_published_playlist level
        ≡ some (synthesize_variant_playlist (u.uploaded_segments level) true)

  body-finalized :
      (level : QualityLevel) (v : Uploader)
      → let body = synthesize_variant_playlist (v.uploaded_segments level) true in
        Triple Always
          (λ u. u.uploaded_segments level ≡ v.uploaded_segments level)
          (λ u.
            (u.uploaded_segments level ≡ v.uploaded_segments level)
            × (u.last_published_playlist level ≡ some body))
          (publish_body answer prefix levels has_audio level body)
  body-finalized level v =
      let body = synthesize_variant_playlist (v.uploaded_segments level) true in
      Triple-if (λ u. is_published (u.last_published_playlist level) body) _ _
        (Triple-done (λ u g h. (h.0, is_published-some (u.last_published_playlist level) body h.1)))
        (Triple-then {Q = λ u. u.uploaded_segments level ≡ v.uploaded_segments level}
          (Triple-request answer _ _ (λ u g h r. tt) (λ u g h. h.0))
          (Triple-set (λ u. (published level body u).1)
            (λ u g h. (tt, (h, rw (level_eq_refl level) refl)))))

  publish-Finalized :
      (level : QualityLevel)
      → Triple Always Always
          (Finalized level)
          (publish_variant_playlist_if_changed answer prefix levels has_audio level final_drain)
  unfolding publish_variant_playlist_if_changed Finalized
  publish-Finalized level =
      Triple-if (λ u. is_empty (u.uploaded_segments level)) _ _
        (Triple-done (λ u g h e. absurd (cc)))
        (record {
          at = λ u g h.
              let t =
                Triple-weaken {P = λ w. w.uploaded_segments level ≡ u.uploaded_segments level}
                  {Q = Finalized level} (body-finalized level u) (λ w i p. p)
                  (λ w q n. rw q.0 q.1) in
              t.at u g refl;
        })

  pub scanned-Complete :
      (files : List PathBuf) (level : QualityLevel)
      → Triple Always Always (Complete (entries files) level) (
          upload_scanned answer prefix levels has_audio level final_drain
            (scan_segments (entries files)))
  unfolding Complete Finalized Uploads Holds scan_segments select_uploadable_segments
  scanned-Complete files level =
      let paths = sort_paths (keep has_ts_extension files) in
      let held : Uploader → Type 0 = λ u. (path : PathBuf) → In path paths → Uploads level path u in
      Triple-then {Q = held} (turns-hold answer prefix levels has_audio level paths) (
        Triple-weaken
          (Triple-and {P = held}
            (Triple-moved (
              publish-frame answer prefix levels has_audio level final_drain
                (held-Closed level paths)))
            (publish-Finalized level))
          (λ u g h. (h, tt))
          (λ u q. (
            (λ path name i ts e.
                q.0 path
                  (In-sort_paths path (keep has_ts_extension files)
                    (In-keep_back has_ts_extension files path i ts))
                  name e),
            q.1,
          )))
