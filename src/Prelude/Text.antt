-- ===== src/Prelude/Text.antt =====
-- Texts: the pieces of a `format!` put together, and the trimming of `str`.
use Prim.Native.Nat.{ℕ, zero, suc, ◌/◌, ◌%◌}
use Prim.Native.Char.{Char, code}
use Prim.Native.String
use Prim.Native.String.{String}
use mathlib.Core.Bool.{Bool, true, false, ◌&&◌, ◌||◌}
use mathlib.Core.List.{List, [], ◌∷◌}
use benri_stream.Prelude.Tests.{ltb, leb, eqb, if◌then◌else◌}

unfoldable pub concat : List String → String
concat [] = ""
concat (s ∷ rest) = String.◌++◌ s (concat rest)

abbrev pub is_blank : String → Bool
is_blank String.[] = true
is_blank (String.◌∷◌ c s) = false

-- `char::is_whitespace`: the code points of Unicode's White_Space.
unfoldable pub is_whitespace : Char → Bool
is_whitespace c =
    let n = code c in
    (leb 9 n && leb n 13)
    || eqb n 32
    || eqb n 0x85
    || eqb n 0xA0
    || eqb n 0x1680
    || (leb 0x2000 n && leb n 0x200A)
    || eqb n 0x2028
    || eqb n 0x2029
    || eqb n 0x202F
    || eqb n 0x205F
    || eqb n 0x3000

unfoldable pub trim_start : (Char → Bool) → String → String
trim_start test String.[] = ""
trim_start test (String.◌∷◌ c s) =
    let rest = trim_start test s in if test c then rest else String.◌∷◌ c s

unfoldable pub trim_end : (Char → Bool) → String → String
trim_end test String.[] = ""
trim_end test (String.◌∷◌ c s) =
    let rest = trim_end test s in if is_blank rest && test c then "" else String.◌∷◌ c rest

-- `str::trim`
unfoldable pub trim : String → String
unfolding trim_start trim_end is_whitespace
trim s = trim_end is_whitespace (trim_start is_whitespace s)

abbrev digit : ℕ → String
digit zero = "0"
digit (suc zero) = "1"
digit (suc (suc zero)) = "2"
digit (suc (suc (suc zero))) = "3"
digit (suc (suc (suc (suc zero)))) = "4"
digit (suc (suc (suc (suc (suc zero))))) = "5"
digit (suc (suc (suc (suc (suc (suc zero)))))) = "6"
digit (suc (suc (suc (suc (suc (suc (suc zero))))))) = "7"
digit (suc (suc (suc (suc (suc (suc (suc (suc zero)))))))) = "8"
digit _ = "9"

-- The digits of `n`, most significant first, before `rest`. A number has fewer digits than `suc n`.
show_digits : ℕ → ℕ → String → String
show_digits zero n rest = rest
show_digits (suc fuel) n rest =
    let longer = String.◌++◌ (digit (n % 10)) rest in
    let more = show_digits fuel (n / 10) longer in if ltb n 10 then longer else more

-- The Display of an unsigned number.
unfoldable pub show_nat : ℕ → String
unfolding show_digits
show_nat n = show_digits (suc n) n ""
