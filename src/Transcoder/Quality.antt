-- ===== src/Transcoder/Quality.antt =====
-- crates/infrastructure/src/transcoder/quality.rs: the tiers and the list of them in QUALITY_TIERS.
pub mod Ladder
pub mod Printed
use Prim.Native.Char.{Char, char, code}
use Prim.Native.String
use benri_stream.Prelude.{
  ℕ, zero, suc, ◌-◌, String, Bool, true, false, Option, none, some, List, [], ◌∷◌, ◌&&◌, leb, eqb,
  any, is_empty, if◌then◌else◌, trim, ◌==◌, ◌≡◌, arith,
}

pub data QualityLevel : Type 0 where
  low : QualityLevel
  medium : QualityLevel
  high : QualityLevel

-- `==` of the derived `PartialEq`
abbrev pub level_eq : QualityLevel → QualityLevel → Bool
level_eq low low = true
level_eq medium medium = true
level_eq high high = true
level_eq _ _ = false

pub level_eq→eq : (a b : QualityLevel) → level_eq a b ≡ true → a ≡ b
level_eq→eq a b h = ground arith

-- Width and height.
unfoldable pub resolution : QualityLevel → ℕ × ℕ
resolution low = (640, 360)
resolution medium = (1280, 720)
resolution high = (1920, 1080)

unfoldable pub target_bitrate_bps : QualityLevel → ℕ
target_bitrate_bps low = 800000
target_bitrate_bps medium = 2500000
target_bitrate_bps high = 5000000

abbrev pub all : List QualityLevel
all = low ∷ medium ∷ high ∷ []

abbrev pub name : QualityLevel → String
name low = "low"
name medium = "medium"
name high = "high"

-- The character at a position of a text, else the default.
abbrev pub char_or : Char → ℕ → String → Char
char_or default n String.[] = default
char_or default zero (String.◌∷◌ c s) = c
char_or default (suc n) (String.◌∷◌ c s) = char_or default n s

abbrev pub ascii_lowercase : Char → Char
ascii_lowercase c =
    if leb 65 (code c) && leb (code c) 90
    then char_or c (code c - 65) "abcdefghijklmnopqrstuvwxyz"
    else c

-- `str::to_ascii_lowercase`
unfoldable pub to_ascii_lowercase : String → String
to_ascii_lowercase String.[] = ""
to_ascii_lowercase (String.◌∷◌ c s) = String.◌∷◌ (ascii_lowercase c) (to_ascii_lowercase s)

abbrev pub named : String → Option QualityLevel
named s =
    if s == "low"
    then some low
    else if s == "medium"
    then some medium
    else if s == "high"
    then some high
    else none

unfoldable pub from_name : String → Option QualityLevel
unfolding to_ascii_lowercase trim
from_name s = named (to_ascii_lowercase (trim s))

-- A character before the first piece.
abbrev pub put_first : Char → List String → List String
put_first c [] = String.◌∷◌ c "" ∷ []
put_first c (s ∷ rest) = String.◌∷◌ c s ∷ rest

abbrev pub comma : Char
comma = char 44 tt

-- `str::split`, at a character
unfoldable pub split : Char → String → List String
split separator String.[] = "" ∷ []
split separator (String.◌∷◌ c s) =
    let rest = split separator s in
    if eqb (code c) (code separator) then "" ∷ rest else put_first c rest

-- The level of a piece, if it is the first piece with this level.
abbrev pub fresh : List QualityLevel → Option QualityLevel → Option QualityLevel
fresh seen none = none
fresh seen (some level) = if any (level_eq level) seen then none else some level

abbrev pub with_level : Option QualityLevel → List QualityLevel → List QualityLevel
with_level none levels = levels
with_level (some level) levels = level ∷ levels

-- What the loop pushes for the pieces from here on.
unfoldable pub collect : List QualityLevel → List String → List QualityLevel
collect seen [] = []
collect seen (piece ∷ rest) =
    let new = fresh seen (from_name piece) in with_level new (collect (with_level new seen) rest)

abbrev pub or_default : List QualityLevel → List QualityLevel
or_default out = if is_empty out then all else out

unfoldable pub parse_quality_tiers : String → List QualityLevel
unfolding collect split
parse_quality_tiers raw = or_default (collect [] (split comma raw))
