-- ===== src/Transcoder/Quality/Ladder.antt =====
-- What parse_quality_tiers of crates/infrastructure/src/transcoder/quality.rs answers.
use benri_stream.Prelude.{
  String, true, false, some, List, [], ◌∷◌, ◌≡◌, ◌⊎◌, inl, inr, refl, sym, ap, ◌∙◌, any, is_empty,
  In, here, there, In-cons, Bool-cases, Option-cases,
}
use benri_stream.Transcoder.Quality.{
  QualityLevel, level_eq, level_eq→eq, parse_quality_tiers, split, collect, from_name, low, medium,
  high, or_default, comma,
}

-- No level of the list is among `seen`, and none stands twice.
abbrev pub IsDistinct : List QualityLevel → List QualityLevel → Type 0
IsDistinct seen [] = Unit {0}
IsDistinct seen (l ∷ ls) = (any (level_eq l) seen ≡ false) × IsDistinct (l ∷ seen) ls

-- A piece of the list names the level.
abbrev pub Names : List String → QualityLevel → Type 0
Names pieces l = (piece : String) × In piece pieces × (from_name piece ≡ some l)

-- No piece names a level.
abbrev pub NoneNamed : List String → Type 0
NoneNamed pieces = (l : QualityLevel) → Names pieces l → ⊥

-- What a ladder for the pieces is: distinct levels, at least one; exactly those with a name among the
-- pieces, or, when no piece names one, low, medium and high.
abbrev pub IsLadder : List String → List QualityLevel → Type 0
IsLadder pieces out =
    IsDistinct [] out
    × (is_empty out ≡ false)
    × ((l : QualityLevel) → Names pieces l → In l out)
    × (((l : QualityLevel) → In l out → Names pieces l)
        ⊎ (NoneNamed pieces × (out ≡ low ∷ medium ∷ high ∷ [])))

In-seen : (l : QualityLevel) (seen : List QualityLevel) → any (level_eq l) seen ≡ true → In l seen
In-seen l [] h = absurd (cc)
In-seen l (s ∷ seen) h = elim (Bool-cases (level_eq l s)) [
  | inl e ↦ here (level_eq→eq l s e)
  | inr e ↦ there (In-seen l seen (rw e at h))
]

collect-IsDistinct :
    (seen : List QualityLevel) (ps : List String) → IsDistinct seen (collect seen ps)
unfolding collect
collect-IsDistinct seen [] = tt
collect-IsDistinct seen (p ∷ ps) = elim (Option-cases (from_name p)) [
  | inl e ↦ rw e (collect-IsDistinct seen ps)
  | inr (l, e) ↦ elim (Bool-cases (any (level_eq l) seen)) [
    | inl d ↦ rw (e, d) (collect-IsDistinct seen ps)
    | inr d ↦ rw (e, d) (d, collect-IsDistinct (l ∷ seen) ps)
  ]
]

Names-cons : (p : String) (ps : List String) (l : QualityLevel) → Names ps l → Names (p ∷ ps) l
Names-cons p ps l (q, i, e) = (q, there i, e)

collect_sound :
    (seen : List QualityLevel) (ps : List String) (l : QualityLevel)
    → In l (collect seen ps)
    → Names ps l
unfolding collect
collect_sound seen [] l i = elim i [ ]
collect_sound seen (p ∷ ps) l i = elim (Option-cases (from_name p)) [
  | inl e ↦ Names-cons p ps l (collect_sound seen ps l (rw e at i))
  | inr (k, e) ↦ elim (Bool-cases (any (level_eq k) seen)) [
    | inl d ↦ Names-cons p ps l (collect_sound seen ps l (rw (e, d) at i))
    | inr d ↦ elim (In-cons (rw (e, d) at i)) [
      | inl same ↦ (p, here refl, e ∙ ap some (sym same))
      | inr j ↦ Names-cons p ps l (collect_sound (k ∷ seen) ps l j)
    ]
  ]
]

module _ (l : QualityLevel) where
  -- The level of a piece is in the result, unless it was seen.
  collect-complete :
      (seen : List QualityLevel) (ps : List String)
      → Names ps l
      → In l seen ⊎ In l (collect seen ps)
  unfolding collect
  collect-complete seen [] (q, i, e) = elim i [ ]
  collect-complete seen (p ∷ ps) (q, i, e) = elim (Option-cases (from_name p)) [
    | inl n ↦ elim (In-cons i) [
      | inl same ↦ absurd (cc)
      | inr j ↦ rw n (collect-complete seen ps (q, j, e))
    ]
    | inr (k, s) ↦ elim (Bool-cases (any (level_eq k) seen)) [
      | inl d ↦
          rw (s, d)
            elim (In-cons i) [
              | inl same ↦ let level : l ≡ k = cc in inl (rw level (In-seen k seen d))
              | inr j ↦ collect-complete seen ps (q, j, e)
            ]
      | inr d ↦
          rw (s, d)
            elim (In-cons i) [
              | inl same ↦ inr (here cc)
              | inr j ↦ elim (collect-complete (k ∷ seen) ps (q, j, e)) [
                | inl old ↦ elim (In-cons old) [ inl same ↦ inr (here same) | inr a ↦ inl a ]
                | inr new ↦ inr (there new)
              ]
            ]
    ]
  ]

or_default-IsLadder :
    (pieces : List String) (out : List QualityLevel)
    → IsDistinct [] out
    → ((l : QualityLevel) → Names pieces l → In l out)
    → ((l : QualityLevel) → In l out → Names pieces l)
    → IsLadder pieces (or_default out)
or_default-IsLadder pieces [] d complete sound = (
  (refl, (refl, (refl, tt))),
  refl,
  (λ l n. elim (complete l n) [ ]),
  inr (λ l n. elim (complete l n) [ ], refl),
)
or_default-IsLadder pieces (l ∷ out) d complete sound = (d, refl, complete, inl sound)

unseen : (ps : List String) (l : QualityLevel) → Names ps l → In l (collect [] ps)
unseen ps l n = elim (collect-complete l [] ps n) [ inl i ↦ elim i [ ] | inr i ↦ i ]

-- For every text, parse_quality_tiers answers at least one level, none twice, every level that a
-- piece of the text names, and no other, unless no piece names one, when it answers low, medium
-- and high.
pub parse_quality_tiers-IsLadder :
    (raw : String) → IsLadder (split comma raw) (parse_quality_tiers raw)
unfolding parse_quality_tiers
parse_quality_tiers-IsLadder raw =
    let ps = split comma raw in
    or_default-IsLadder ps (collect [] ps) (collect-IsDistinct [] ps) (unseen ps)
      (collect_sound [] ps)
