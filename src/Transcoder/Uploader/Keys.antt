-- ===== src/Transcoder/Uploader/Keys.antt =====
-- The keys of crates/infrastructure/src/transcoder/hls_uploader.rs: a file of a tier is never stored
-- as the master playlist.
use Prim.Native.Char.{Char, char, code}
use Prim.Native.String
use text.Mathlib.TextLemmas.{
  cons-append, append_cancel_left, head-eq_of_cons-eq, tail-eq_of_cons-eq,
}
use benri_stream.Prelude.{String, [], ◌∷◌, ◌≡◌, ◌≢◌, sym, ap, ◌∙◌, concat, arith}
use benri_stream.Transcoder.Quality.{QualityLevel, low, medium, high, name}
use benri_stream.Transcoder.Uploader.Files.{tier_object_key}

abbrev pub master_key : String → String
master_key prefix = concat (prefix ∷ "master.m3u8" ∷ [])

starts :
    (x y : Char) (s t rest : String) → String.◌++◌ (String.◌∷◌ x s) rest ≡ String.◌∷◌ y t → x ≡ y
starts x y s t rest e = head-eq_of_cons-eq (sym (cons-append x s rest) ∙ e)

named-master :
    (level : QualityLevel) (rest : String) → String.◌++◌ (name level) rest ≢ "master.m3u8"
named-master low rest e =
    let same : char 108 tt ≡ char 109 tt =
      starts (char 108 tt) (char 109 tt) "ow" "aster.m3u8" rest e in
    let codes : code (char 108 tt) ≡ code (char 109 tt) = ap code same in omega arith
named-master medium rest e =
    let tails = tail-eq_of_cons-eq (sym (cons-append (char 109 tt) "edium" rest) ∙ e) in
    let same : char 101 tt ≡ char 97 tt =
      starts (char 101 tt) (char 97 tt) "dium" "ster.m3u8" rest tails in
    let codes : code (char 101 tt) ≡ code (char 97 tt) = ap code same in omega arith
named-master high rest e =
    let same : char 104 tt ≡ char 109 tt =
      starts (char 104 tt) (char 109 tt) "igh" "aster.m3u8" rest e in
    let codes : code (char 104 tt) ≡ code (char 109 tt) = ap code same in omega arith

pub tier_key-master_key :
    (prefix : String) (level : QualityLevel) (filename : String)
    → tier_object_key prefix level filename ≢ master_key prefix
unfolding tier_object_key concat
tier_key-master_key prefix level filename e = named-master level _ (append_cancel_left prefix _ _ e)
