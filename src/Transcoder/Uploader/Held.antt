-- ===== src/Transcoder/Uploader/Held.antt =====
-- A file that an upload of crates/infrastructure/src/transcoder/hls_uploader.rs succeeded for is uploaded.
use benri_stream.Prelude.{
  ℕ, String, Bool, true, Option, none, some, List, [], ◌∷◌, ◌++◌, ◌≡◌, inl, inr, refl, sym, any, In,
  here, there, In-append_left, In-of_any, ◌∙◌, Bool-cases, ◌==◌, eq_iff,
}
use benri_stream.Platform.{Result}
use benri_stream.Effects.Ports.{StorageError}
use benri_stream.Transcoder.Quality.{QualityLevel, low, medium, high, level_eq, level_eq→eq}
use benri_stream.Transcoder.Uploader.Files.{PathBuf, running}
use benri_stream.Transcoder.Uploader.{
  each, Uploader, push_segment, upload_named, upload_one_segment, upload_and_publish,
  upload_by_name,
}
use benri_stream.Transcoder.Uploader.Rules.{
  Always, Triple, Triple-done, Triple-set, Triple-if, Triple-weaken, Triple-then, Triple-request,
  Triple-moved, Triple-each_all,
}
use benri_stream.Transcoder.Uploader.Justified.{some_injective}
use benri_stream.Transcoder.Uploader.Framed.{publish-frame, Closed, after_first-frame, turn-frame}

unfoldable pub Holds : QualityLevel → String → Uploader → Type 0
Holds level name u = In name (u.uploaded_segments level)

pub level_eq_refl : (level : QualityLevel) → level_eq level level ≡ true
level_eq_refl low = refl
level_eq_refl medium = refl
level_eq_refl high = refl

In-last : {A : Type 0} (xs : List A) (x : A) → In x (xs ++ x ∷ [])
In-last [] x = here refl
In-last (y ∷ xs) x = there (In-last xs x)

push-Holds :
    (other level : QualityLevel) (added name : String) (u : Uploader)
    → Holds level name u
    → Holds level name (push_segment other added u).1
unfolding Holds
push-Holds other level added name u i = elim (Bool-cases (level_eq other level)) [
  | inl e ↦ rw e (
      In-append_left (u.uploaded_segments other) (added ∷ []) name
        (rw (level_eq→eq other level e) i))
  | inr e ↦ rw e i
]

pub Holds-Closed :
    {prefix : String} (other level : QualityLevel) (name : String)
    → Closed prefix other (Holds level name)
unfolding Holds
Holds-Closed other level name = record {
  log = λ u x r s i. i;
  push = λ u added i. push-Holds other level added name u i;
  publish = λ u body i. i;
  first = λ u e i. i;
  mark = λ u e i. i;
  fire = λ u e i. i;
}

-- The name of a file, if it has one, is among the uploaded.
unfoldable pub Uploads : QualityLevel → PathBuf → Uploader → Type 0
Uploads level path u = (name : String) → path.file_name ≡ some name → Holds level name u

pub Uploads-Closed :
    {prefix : String} (other level : QualityLevel) (path : PathBuf)
    → Closed prefix other (Uploads level path)
unfolding Uploads Holds
Uploads-Closed other level path = record {
  log = λ u x r s h. h;
  push = λ u added h name e. push-Holds other level added name u (h name e);
  publish = λ u body h. h;
  first = λ u e h. h;
  mark = λ u e h. h;
  fire = λ u e h. h;
}

module _ (answer : ℕ → Result StorageError (Unit {0})) (prefix : String)
    (levels : List QualityLevel) (has_audio : Bool) where
  upload_named-Holds :
      (path : PathBuf) (level : QualityLevel) (name : String)
      → Triple Always Always
          (Holds level name)
          (upload_named answer prefix levels has_audio path level name)
  unfolding upload_named Holds
  upload_named-Holds path level name =
      Triple-if (λ u. any (λ n. n == name) (u.uploaded_segments level)) _ _
        (Triple-done (λ u g h.
          let (n, i, e) = In-of_any (λ n. n == name) (u.uploaded_segments level) h.1 in
          rw (sym ((eq_iff n name).0 e)) i))
        (Triple-then {Q = Holds level name}
          (Triple-then {Q = Always} (Triple-request answer _ _ (λ u g h r. tt) (λ u g h. tt)) (
            Triple-set (λ u. (push_segment level name u).1)
              (λ u g h. (tt, rw (level_eq_refl level) (In-last (u.uploaded_segments level) name)))))
          (Triple-moved (
            after_first-frame answer prefix levels has_audio level
              (Holds-Closed level level name))))

  upload_by_name-holds :
      (path : PathBuf) (level : QualityLevel) (o : Option String)
      → path.file_name ≡ o
      → Triple Always Always
          (Uploads level path)
          (upload_by_name answer prefix levels has_audio path level o)
  unfolding Uploads
  upload_by_name-holds path level none e = Triple-done (λ u g h name e'. absurd (cc))
  upload_by_name-holds path level (some n) e =
      Triple-weaken (upload_named-Holds path level n) (λ u g h. tt)
        (λ u q name e'. let same : n ≡ name = some_injective n name (sym e ∙ e') in rw (sym same) q)

  upload_one-holds :
      (path : PathBuf) (level : QualityLevel)
      → Triple Always Always
          (Uploads level path)
          (upload_one_segment answer prefix levels has_audio path level)
  unfolding upload_one_segment
  upload_one-holds path level = upload_by_name-holds path level path.file_name refl

  turn-holds :
      (level : QualityLevel) (path : PathBuf)
      → Triple Always Always
          (Uploads level path)
          (upload_and_publish answer prefix levels has_audio level path)
  turn-holds level path = Triple-then {Q = Uploads level path} (upload_one-holds path level) (
      Triple-moved (
        publish-frame answer prefix levels has_audio level running
          (Uploads-Closed level level path)))

  -- After the loop over the files each of them is uploaded.
  pub turns-hold :
      (level : QualityLevel) (paths : List PathBuf)
      → Triple Always Always
          (λ u. (path : PathBuf) → In path paths → Uploads level path u)
          (each (upload_and_publish answer prefix levels has_audio level) paths)
  turns-hold level paths = Triple-each_all (Uploads level) _ paths (turn-holds level) (λ x y.
      Triple-moved
        (turn-frame answer prefix levels has_audio level (Uploads-Closed level level x) y))
