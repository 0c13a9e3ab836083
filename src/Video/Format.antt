-- ===== src/Video/Format.antt =====
-- `VideoFormat` of crates/domain/src/video/mod.rs, and the check of a file's first bytes.
use benri_stream.Prelude.{
  ℕ, String, Bool, true, false, Option, none, some, List, [], ◌∷◌, ◌≡◌, refl, ◌==◌, ◌&&◌,
  if◌then◌else◌, ltb, eqb, length, take, drop,
}

pub data VideoFormat : Type 0 where
  mp4 webm mov avi mkv : VideoFormat

unfoldable pub from_mime_type : String → Option VideoFormat
from_mime_type mime =
    if mime == "video/mp4"
    then some mp4
    else if mime == "video/webm"
    then some webm
    else if mime == "video/quicktime"
    then some mov
    else if mime == "video/x-msvideo"
    then some avi
    else if mime == "video/x-matroska"
    then some mkv
    else none

unfoldable pub as_str : VideoFormat → String
as_str mp4 = "MP4"
as_str webm = "WEBM"
as_str mov = "MOV"
as_str avi = "AVI"
as_str mkv = "MKV"

unfoldable pub from_str : String → Option VideoFormat
from_str s =
    if s == "MP4"
    then some mp4
    else if s == "WEBM"
    then some webm
    else if s == "MOV"
    then some mov
    else if s == "AVI"
    then some avi
    else if s == "MKV"
    then some mkv
    else none

unfoldable pub extension : VideoFormat → String
extension mp4 = ".mp4"
extension webm = ".webm"
extension mov = ".mov"
extension avi = ".avi"
extension mkv = ".mkv"

-- Two lists of bytes are the same.
abbrev pub bytes_eq : List ℕ → List ℕ → Bool
bytes_eq [] [] = true
bytes_eq [] (b ∷ bs) = false
bytes_eq (a ∷ as') [] = false
bytes_eq (a ∷ as') (b ∷ bs) = eqb a b && bytes_eq as' bs

abbrev pub bytes_start_with : List ℕ → List ℕ → Bool
bytes_start_with bytes pre = bytes_eq (take (length pre) bytes) pre

abbrev pub ftyp : List ℕ
ftyp = b'f' ∷ b't' ∷ b'y' ∷ b'p' ∷ []

abbrev pub ebml : List ℕ
ebml = 0x1A ∷ 0x45 ∷ 0xDF ∷ 0xA3 ∷ []

abbrev pub riff : List ℕ
riff = b'R' ∷ b'I' ∷ b'F' ∷ b'F' ∷ []

abbrev signature_test : VideoFormat → List ℕ → Bool
signature_test mp4 bytes = bytes_eq (take 4 (drop 4 bytes)) ftyp
signature_test mov bytes = bytes_eq (take 4 (drop 4 bytes)) ftyp
signature_test webm bytes = bytes_start_with bytes ebml
signature_test mkv bytes = bytes_start_with bytes ebml
signature_test avi bytes = bytes_start_with bytes riff

unfoldable pub validate_signature : VideoFormat → List ℕ → Bool
validate_signature format bytes =
    if ltb (length bytes) 12 then false else signature_test format bytes

pub from_str-as_str : (f : VideoFormat) → from_str (as_str f) ≡ some f
unfolding from_str as_str
from_str-as_str mp4 = refl
from_str-as_str _ = refl
