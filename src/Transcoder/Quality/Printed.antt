-- ===== src/Transcoder/Quality/Printed.antt =====
-- Lists of tiers as they are written in QUALITY_TIERS, read by parse_quality_tiers.
use Prim.Native.Char.{Char, code}
use Prim.Native.String
use text.Mathlib.TextLemmas.{nil-append, cons-append}
use benri_stream.Prelude.{
  String, false, some, List, [], ◌∷◌, map, ◌≡◌, refl, ap, ◌∙◌, is_empty, eqb,
}
use benri_stream.Transcoder.Quality.{
  QualityLevel, low, medium, high, parse_quality_tiers, split, collect, from_name, name, or_default,
  comma,
}
use benri_stream.Transcoder.Quality.Ladder.{IsDistinct}

-- No character of the text is the separator.
abbrev Lacks : Char → String → Type 0
Lacks separator String.[] = Unit {0}
Lacks separator (String.◌∷◌ c s) = (eqb (code c) (code separator) ≡ false) × Lacks separator s

-- The texts with commas between them.
abbrev pub join : List String → String
join [] = ""
join (s ∷ []) = s
join (s ∷ next ∷ rest) = String.◌++◌ s (String.◌∷◌ comma (join (next ∷ rest)))

split-last : (s : String) → Lacks comma s → split comma s ≡ s ∷ []
unfolding split
split-last String.[] _ = refl
split-last (String.◌∷◌ c s) (h, hs) = rw (h, split-last s hs) refl

split-append :
    (s t : String)
    → Lacks comma s
    → split comma (String.◌++◌ s (String.◌∷◌ comma t)) ≡ s ∷ split comma t
unfolding split
split-append String.[] t _ = rw (nil-append (String.◌∷◌ comma t)) refl
split-append (String.◌∷◌ c s) t (h, hs) =
    rw (cons-append c s (String.◌∷◌ comma t), h, split-append s t hs) refl

name-Lacks : (l : QualityLevel) → Lacks comma (name l)
name-Lacks low = (refl, (refl, (refl, tt)))
name-Lacks medium = (refl, (refl, (refl, (refl, (refl, (refl, tt))))))
name-Lacks high = (refl, (refl, (refl, (refl, tt))))

split-join :
    (l : QualityLevel) (ls : List QualityLevel)
    → split comma (join (map name (l ∷ ls))) ≡ map name (l ∷ ls)
split-join l [] = split-last (name l) (name-Lacks l)
split-join l (k ∷ ls) =
    split-append (name l) (join (map name (k ∷ ls))) (name-Lacks l)
    ∙ ap (λ rest. name l ∷ rest) (split-join k ls)

from_name-name : (l : QualityLevel) → from_name (name l) ≡ some l
unfolding from_name
from_name-name low = refl
from_name-name medium = refl
from_name-name high = refl

collect-names : (seen ls : List QualityLevel) → IsDistinct seen ls → collect seen (map name ls) ≡ ls
unfolding collect
collect-names seen [] d = refl
collect-names seen (l ∷ ls) (d, ds) =
    rw (from_name-name l, d) (ap (λ rest. l ∷ rest) (collect-names (l ∷ seen) ls ds))

-- The names of a non-empty list of distinct levels, with commas between them, are read back as that
-- list, in its order.
pub parse_quality_tiers-join :
    (ls : List QualityLevel)
    → is_empty ls ≡ false
    → IsDistinct [] ls
    → parse_quality_tiers (join (map name ls)) ≡ ls
unfolding parse_quality_tiers
parse_quality_tiers-join [] h d = absurd (cc)
parse_quality_tiers-join (l ∷ ls) h d =
    ap (λ ps. or_default (collect [] ps)) (split-join l ls)
    ∙ ap or_default (collect-names [] (l ∷ ls) d)
