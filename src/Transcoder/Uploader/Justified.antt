-- ===== src/Transcoder/Uploader/Justified.antt =====
-- What is in the storage whenever the uploader of crates/infrastructure/src/transcoder/hls_uploader.rs
-- asks for something, and when it notifies.
use benri_stream.Prelude.{
  ◌||◌, ◌++◌, any, sym, eq_iff, ◌==◌, String, Bool, true, false, some, List, [], ◌∷◌, ◌≡◌, arith,
  ◌⊎◌, inl, inr, refl, is_empty, In, there, In-cons, In-append, concat, Bool-cases,
}
use benri_stream.Platform.{Result, ok}
use benri_stream.Effects.Ports.{StorageError}
use benri_stream.Transcoder.Quality.{QualityLevel, low, level_eq, level_eq→eq}
use benri_stream.Transcoder.Uploader.Files.{
  PathBuf, tier_object_key, synthesize_variant_playlist, generate_master_playlist,
  playlist_filename, master_filename, ts_content_type, hls_content_type,
}
use benri_stream.Transcoder.Uploader.{Uploader, Upload, upload_from_path, upload_bytes, insert, new}
use benri_stream.Transcoder.Uploader.Rules.{logged}

pub some_injective : {A : Type 0} (a b : A) → some a ≡ some b → a ≡ b
some_injective a b e = cc

abbrev pub Requests : Type 0
Requests = List (Upload × Result StorageError (Unit {0}))

-- The storage has confirmed the upload.
abbrev pub Stored : Upload → Requests → Type 0
Stored upload rs = In (upload, ok tt) rs

-- No name stands twice.
abbrev pub NoRepeat : List String → Type 0
NoRepeat [] = Unit {0}
NoRepeat (x ∷ xs) = (any (λ n. n == x) xs ≡ false) × NoRepeat xs

or_false : (a b : Bool) → (a || b) ≡ false → (a ≡ false) × (b ≡ false)
or_false a b h = ground arith

flipped : (x y : String) → (x == y) ≡ false → (y == x) ≡ false
flipped x y h = elim (Bool-cases (y == x)) [
  | inl e ↦ let t = (eq_iff x y).1 (sym ((eq_iff y x).0 e)) in absurd (cc)
  | inr e ↦ e
]

any-last :
    (x y : String) (xs : List String)
    → (y == x) ≡ false
    → any (λ n. n == x) xs ≡ false
    → any (λ n. n == x) (xs ++ y ∷ []) ≡ false
any-last x y [] e h = rw e refl
any-last x y (z ∷ xs) e h =
    let (head, rest) = or_false (z == x) (any (λ n. n == x) xs) h in
    rw head (any-last x y xs e rest)

append-NoRepeat :
    (xs : List String) (x : String)
    → NoRepeat xs
    → any (λ n. n == x) xs ≡ false
    → NoRepeat (xs ++ x ∷ [])
append-NoRepeat [] x _ _ = (refl, tt)
append-NoRepeat (y ∷ xs) x (apart, rest) absent =
    let (head, tail) = or_false (y == x) (any (λ n. n == x) xs) absent in
    (any-last y x xs (flipped y x head) apart, append-NoRepeat xs x rest tail)

abbrev pub Nonempty : {A : Type 0} → List A → Type 0
Nonempty xs = is_empty xs ≡ false

module _ (prefix : String) where
  abbrev pub StoredSegment : QualityLevel → String → Requests → Type 0
  StoredSegment level name rs =
      (path : PathBuf) × Stored
        (upload_from_path path (tier_object_key prefix level name) ts_content_type) rs

  abbrev pub playlist_upload : QualityLevel → String → Upload
  playlist_upload level body =
      upload_bytes (tier_object_key prefix level playlist_filename) body hls_content_type

  abbrev pub master_upload : List QualityLevel → Bool → Upload
  master_upload levels has_audio =
      upload_bytes (concat (prefix ∷ master_filename ∷ []))
        (generate_master_playlist levels has_audio) hls_content_type

  -- A playlist that is stored for the tier lists at least one segment, and only stored ones.
  abbrev pub Playable : QualityLevel → Requests → Type 0
  Playable level rs =
      (names : List String) × (finalize : Bool) × Nonempty names
      × ((n : String) → In n names → StoredSegment level n rs)
      × Stored (playlist_upload level (synthesize_variant_playlist names finalize)) rs

  -- What may be asked for after the requests `rs`.
  pub data IsJustified (levels : List QualityLevel) (has_audio : Bool) (rs : Requests)
      : Upload → Type 0 where
    -- a segment, under its name
    segment :
        (path : PathBuf) (level : QualityLevel) (name : String)
        → path.file_name ≡ some name
        → IsJustified levels has_audio rs
            (upload_from_path path (tier_object_key prefix level name) ts_content_type)
    -- a playlist, when it lists at least one segment, none twice, and only stored ones
    playlist :
        (level : QualityLevel) (names : List String) (finalize : Bool)
        → Nonempty names
        → NoRepeat names
        → ((n : String) → In n names → StoredSegment level n rs)
        → IsJustified levels has_audio rs
            (playlist_upload level (synthesize_variant_playlist names finalize))
    -- the master playlist, when the low tier can be played
    master : Playable low rs → IsJustified levels has_audio rs (master_upload levels has_audio)

  -- Each request was justified by those before it.
  unfoldable pub AllJustified : (levels : List QualityLevel) (has_audio : Bool) → Requests → Type 0
  AllJustified levels has_audio [] = Unit {0}
  AllJustified levels has_audio ((upload, r) ∷ rs) =
      IsJustified levels has_audio rs upload × AllJustified levels has_audio rs

  module _ (levels : List QualityLevel) (has_audio : Bool) where
    -- The state agrees with what was asked for.
    pub record Good (u : Uploader) : Type 0 where
      pub segments :
          (level : QualityLevel) (n : String)
          → In n (u.uploaded_segments level)
          → StoredSegment level n u.requests
      pub distinct : (level : QualityLevel) → NoRepeat (u.uploaded_segments level)
      pub playlists :
          (level : QualityLevel) (body : String)
          → u.last_published_playlist level ≡ some body
          → Stored (playlist_upload level body) u.requests
      pub justified : AllJustified levels has_audio u.requests
      pub master :
          u.master_uploaded ≡ true
          → Playable low u.requests × Stored (master_upload levels has_audio) u.requests
      pub notice :
          ((u.notifier ≡ true) × (u.notified ≡ 0))
          ⊎ ((u.notifier ≡ false) × (u.notified ≡ 1) × (u.master_uploaded ≡ true))

    pub Good-new : Good new
    unfolding new AllJustified
    Good-new = record {
      segments = λ level n i. elim i [ ];
      distinct = λ level. tt;
      playlists = λ level body e. absurd (cc);
      justified = tt;
      master = λ e. absurd (cc);
      notice = inl (refl, refl);
    }

    pub later-Playable :
        (level : QualityLevel) (rs : Requests) (x : Upload × Result StorageError (Unit {0}))
        → Playable level rs
        → Playable level (x ∷ rs)
    later-Playable level rs x (names, fin, h, all, i) =
        (names, fin, h, (λ n j. let (path, k) = all n j in (path, there k)), there i)

    pub Good-logged :
        (u : Uploader) (upload : Upload) (r : Result StorageError (Unit {0}))
        → Good u
        → IsJustified levels has_audio u.requests upload
        → Good (logged u upload r)
    unfolding AllJustified
    Good-logged u upload r g j = record {
      segments = λ level n i. let (path, k) = g.segments level n i in (path, there k);
      distinct = g.distinct;
      playlists = λ level body e. there (g.playlists level body e);
      justified = (j, g.justified);
      master =
          λ e. let (p, s) = g.master e in (later-Playable low u.requests (upload, r) p, there s);
      notice = g.notice;
    }

    -- The name of a segment is added once it is stored.
    pub Good-pushed :
        (u : Uploader) (level : QualityLevel) (name : String)
        → Good u
        → StoredSegment level name u.requests
        → any (λ n. n == name) (u.uploaded_segments level) ≡ false
        → Good (record u {
          uploaded_segments =
              insert level (u.uploaded_segments level ++ name ∷ []) u.uploaded_segments;
        })
    Good-pushed u level name g s fresh = record {
      segments = λ other n i. elim (Bool-cases (level_eq level other)) [
        | inl e ↦
            let same = level_eq→eq level other e in
            elim (In-append (u.uploaded_segments level) (name ∷ []) n (rw e at i)) [
              | inl old ↦ rw (sym same) (g.segments level n old)
              | inr last ↦ elim (In-cons last) [
                | inl at ↦ rw (at, sym same) s
                | inr nothing ↦ elim nothing [ ]
              ]
            ]
        | inr e ↦ g.segments other n (rw e at i)
      ];
      distinct = λ other. elim (Bool-cases (level_eq level other)) [
        | inl e ↦ rw e (append-NoRepeat (u.uploaded_segments level) name (g.distinct level) fresh)
        | inr e ↦ rw e (g.distinct other)
      ];
      playlists = g.playlists;
      justified = g.justified;
      master = g.master;
      notice = g.notice;
    }

    -- The text of a playlist is remembered once it is stored.
    pub Good-published :
        (u : Uploader) (level : QualityLevel) (body : String)
        → Good u
        → Stored (playlist_upload level body) u.requests
        → Good (record u {
          last_published_playlist = insert level (some body) u.last_published_playlist;
        })
    Good-published u level body g s = record {
      segments = g.segments;
      distinct = g.distinct;
      playlists = λ other text h. elim (Bool-cases (level_eq level other)) [
        | inl e ↦
            let same = level_eq→eq level other e in
            let t : body ≡ text = some_injective body text (rw e at h) in rw (sym same, sym t) s
        | inr e ↦ g.playlists other text (rw e at h)
      ];
      justified = g.justified;
      master = g.master;
      notice = g.notice;
    }
