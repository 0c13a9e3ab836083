-- ===== src/Storage/Deletion.antt =====
-- delete_prefix of crates/infrastructure/src/storage/s3_client.rs returns, and leaves nothing.
use text.Mathlib.Text.{starts_with}
use benri_stream.Prelude.{
  ℕ, zero, suc, ◌≤◌, ◌<◌, String, true, false, Option, none, some, List, [], ◌∷◌, ◌≡◌, ◌⊎◌, inl,
  inr, refl, ap, subst, In, Bool-cases, arith,
}
use benri_stream.Platform.{Result, ok, err}
use benri_stream.Effects.Ports.{StorageError}
use benri_stream.Storage.{
  Page, ServiceError, Client, Buckets, bucket_for, to_delete, delete_page, is_true, after_page,
  on_page, delete_pages, delete_prefix, Answer,
}
use benri_stream.Storage.Listing.{IsClient, In-to_delete, truncated, deleted-ok}

module _ {S : Type 0} (client : Client S) (laws : IsClient client) (bucket prefix : String)
    (none_failed : (keys failed : List String) (s : S)
      → (client.delete_objects bucket keys s).0 ≡ ok failed
      → failed ≡ []) where
  -- The loop ends, and if it answers Ok, none of the `Pending` keys is held.
  Clears : Answer S → (String → Type 0) → Type 0
  Clears answer Pending =
      (r : Result StorageError (Unit {0})) × (end : S) × (answer ≡ some (r, end))
      × (r ≡ ok tt → (key : String) → Pending key → laws.held bucket key end ≡ false)

  page-gone :
      (keys : List String) (s : S) (key : String)
      → (delete_page client bucket keys s).0 ≡ ok tt
      → In key keys
      → laws.held bucket key (delete_page client bucket keys s).1 ≡ false
  page-gone [] s key e i = elim i [ ]
  page-gone (k ∷ keys) s key e i =
      let (failed, sent) = deleted-ok (client.delete_objects bucket (k ∷ keys) s).0 e in
      elim (laws.delete_gone bucket key (k ∷ keys) failed s sent i) [
        | inl j ↦ elim (subst (In key) (none_failed (k ∷ keys) failed s sent) j) [ ]
        | inr gone ↦ gone
      ]

  page-keeps :
      (keys : List String) (s : S) (key : String)
      → laws.held bucket key s ≡ false
      → laws.held bucket key (delete_page client bucket keys s).1 ≡ false
  page-keeps [] s key h = h
  page-keeps (k ∷ keys) s key h = laws.delete_keeps bucket key (k ∷ keys) s h

  page-remaining :
      (keys : List String) (token : Option String) (s : S)
      → laws.remaining bucket prefix token (delete_page client bucket keys s).1
        ≤ laws.remaining bucket prefix token s
  page-remaining [] token s = omega arith
  page-remaining (k ∷ keys) token s = laws.delete_decreases bucket prefix token (k ∷ keys) s

  -- What the loop is to remove from a page on.
  Pending : Option String → S → String → Type 0
  Pending token s key =
      (laws.held bucket key s ≡ false) ⊎ (laws.ahead bucket prefix token key ≡ true)

  module _ (fuel : ℕ)
      (next_clears : (token : Option String) (s : S)
        → laws.remaining bucket prefix token s < fuel
        → Clears (delete_pages client fuel bucket prefix token s) (Pending token s)) where
    after_page-Clears :
        (page : Page) (d : Result StorageError (Unit {0})) (s : S) (Wanted : String → Type 0)
        → (page.is_truncated ≡ some true
            → laws.remaining bucket prefix page.next_continuation_token s < fuel)
        → (d ≡ ok tt
            → (key : String) → Wanted key
            → (laws.held bucket key s ≡ false)
              ⊎ ((page.is_truncated ≡ some true)
                  × (laws.ahead bucket prefix page.next_continuation_token key ≡ true)))
        → Clears (after_page (delete_pages client fuel bucket prefix) page (d, s)) Wanted
    unfolding Clears Pending
    after_page-Clears page (err e) s Wanted less left =
        (err e, s, refl, λ (x : err e ≡ ok tt). absurd (cc))
    after_page-Clears page (ok _) s Wanted less left =
        elim (Bool-cases (is_true page.is_truncated)) [
          | inl more ↦
              let (r, end, e, clear) =
                next_clears page.next_continuation_token s
                  (less (truncated page.is_truncated more)) in
              rw more (
                r,
                end,
                e,
                λ done key w.
                    clear done key
                      (elim (left refl key w) [ inl gone ↦ inl gone | inr (_, later) ↦ inr later ]),
              )
          | inr last ↦ rw last (
            ok tt,
            s,
            refl,
            λ done key w. elim (left refl key w) [
              | inl gone ↦ gone
              | inr (more, _) ↦ absurd (cc (ap is_true more))
            ],
          )
        ]

    on_page-Clears :
        (token : Option String) (s : S) (listed : Result ServiceError Page)
        → (client.list_objects_v2 bucket prefix token s).0 ≡ listed
        → laws.remaining bucket prefix token s < suc fuel
        → Clears
            (on_page client
              (delete_pages client fuel bucket prefix)
              bucket
              (listed, (client.list_objects_v2 bucket prefix token s).1))
            (Pending token s)
    unfolding Clears Pending
    on_page-Clears token s (err x) e less = (err _, _, refl, λ (h : err _ ≡ ok tt). absurd (cc))
    on_page-Clears token s (ok page) e less =
        let s' = (client.list_objects_v2 bucket prefix token s).1 in
        let keys = to_delete page.keys in
        let end = delete_page client bucket keys s' in
        after_page-Clears page end.0 end.1 _
          (λ more.
            let a = laws.list_decreases bucket prefix token s page e more in
            let b = page-remaining keys page.next_continuation_token s' in omega arith)
          (λ done key w. elim w [
            | inl gone ↦
                inl (page-keeps keys s' key (laws.list_keeps bucket prefix key token s gone))
            | inr a ↦ elim (laws.list_page bucket prefix key token s page e a) [
              | inl i ↦ inl (page-gone keys s' key done (In-to_delete key page.keys i))
              | inr (inl later) ↦ inr later
              | inr (inr gone) ↦ inl (page-keeps keys s' key gone)
            ]
          ])

  pages-Clear :
      (fuel : ℕ) (token : Option String) (s : S)
      → laws.remaining bucket prefix token s < fuel
      → Clears (delete_pages client fuel bucket prefix token s) (Pending token s)
  unfolding delete_pages
  pages-Clear zero token s less = absurd (omega arith)
  pages-Clear (suc fuel) token s less =
      on_page-Clears fuel (pages-Clear fuel) token s
        (client.list_objects_v2 bucket prefix token s).0 refl less

-- When nobody else writes to the bucket and the server reports no object of a deletion as not deleted,
-- delete_prefix returns with one page of fuel more than the listing has keys to come, and if it answers
-- Ok, then no object is left under the prefix.
pub delete_prefix-clears :
    {S : Type 0} (client : Client S) (laws : IsClient client) (b : Buckets) (prefix bucket : String)
    (fuel : ℕ) (s : S)
    → ((keys failed : List String) (t : S)
        → (client.delete_objects bucket keys t).0 ≡ ok failed
        → failed ≡ [])
    → bucket_for b prefix ≡ some bucket
    → laws.remaining bucket prefix none s < fuel
    → (r : Result StorageError (Unit {0})) × (end : S) × (delete_prefix client fuel b prefix s
        ≡ some (some (r, end)))
      × (r ≡ ok tt
          → (key : String) → starts_with key prefix ≡ true
          → laws.held bucket key end ≡ false)
unfolding delete_prefix Clears Pending
delete_prefix-clears client laws b prefix bucket fuel s none_failed routing enough =
    let (r, end, e, clear) = pages-Clear client laws bucket prefix none_failed fuel none s enough in
    (
      r,
      end,
      rw routing (ap some e),
      λ done key under. clear done key (inr (laws.ahead_first bucket prefix key under)),
    )
