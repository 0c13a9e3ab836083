-- ===== src/Storage/Listing.antt =====
-- Listings and deletions as crates/infrastructure/src/storage/s3_client.rs relies on them.
use text.Mathlib.Text.{starts_with}
use benri_stream.Prelude.{
  ℕ, ◌≤◌, ◌<◌, String, Bool, true, false, Option, none, some, List, [], ◌∷◌, ◌≡◌, ◌⊎◌, inl, inr,
  refl, ap, In, here, there, In-cons, arith,
}
use benri_stream.Platform.{Result, ok, err}
use benri_stream.Storage.{Page, ServiceError, Client, to_delete, is_true, deleted}

-- What the documentation of S3 says of a bucket that nobody else writes to: a listing with a prefix is
-- a finite sequence of pages, which comes to every object under the prefix; a listing and a deletion
-- make no object; a deletion deletes what it does not report.
pub record IsClient {S : Type 0} (client : Client S) : Type 0 where
  pub held : (bucket key : String) → S → Bool
  -- The listing comes to the key on the page of the token or on a later one.
  pub ahead : (bucket prefix : String) → Option String → (key : String) → Bool
  pub remaining : (bucket prefix : String) → Option String → S → ℕ
  pub ahead_first :
      (bucket prefix key : String)
      → starts_with key prefix ≡ true
      → ahead bucket prefix none key ≡ true
  pub list_keeps :
      (bucket prefix key : String) (token : Option String) (s : S)
      → held bucket key s ≡ false
      → held bucket key (client.list_objects_v2 bucket prefix token s).1 ≡ false
  pub list_page :
      (bucket prefix key : String) (token : Option String) (s : S) (page : Page)
      → (client.list_objects_v2 bucket prefix token s).0 ≡ ok page
      → ahead bucket prefix token key ≡ true
      → In (some key) page.keys
        ⊎ (((page.is_truncated ≡ some true)
              × (ahead bucket prefix page.next_continuation_token key ≡ true))
            ⊎ (held bucket key (client.list_objects_v2 bucket prefix token s).1 ≡ false))
  pub list_decreases :
      (bucket prefix : String) (token : Option String) (s : S) (page : Page)
      → (client.list_objects_v2 bucket prefix token s).0 ≡ ok page
      → page.is_truncated ≡ some true
      → remaining bucket prefix page.next_continuation_token
          (client.list_objects_v2 bucket prefix token s).1
        < remaining bucket prefix token s
  pub delete_keeps :
      (bucket key : String) (keys : List String) (s : S)
      → held bucket key s ≡ false
      → held bucket key (client.delete_objects bucket keys s).1 ≡ false
  pub delete_decreases :
      (bucket prefix : String) (token : Option String) (keys : List String) (s : S)
      → remaining bucket prefix token (client.delete_objects bucket keys s).1
        ≤ remaining bucket prefix token s
  pub delete_gone :
      (bucket key : String) (keys failed : List String) (s : S)
      → (client.delete_objects bucket keys s).0 ≡ ok failed
      → In key keys
      → In key failed ⊎ (held bucket key (client.delete_objects bucket keys s).1 ≡ false)

pub In-to_delete :
    (key : String) (keys : List (Option String)) → In (some key) keys → In key (to_delete keys)
unfolding to_delete
In-to_delete key [] i = elim i [ ]
In-to_delete key (none ∷ keys) i = elim (In-cons i) [
  | inl e ↦ absurd (cc)
  | inr j ↦ In-to_delete key keys j
]
In-to_delete key (some k ∷ keys) i = elim (In-cons i) [
  | inl e ↦ here cc
  | inr j ↦ there (In-to_delete key keys j)
]

pub truncated : (o : Option Bool) → is_true o ≡ true → o ≡ some true
truncated none e = absurd (cc)
truncated (some b) e = ap some e

pub deleted-ok :
    (r : Result ServiceError (List String))
    → deleted r ≡ ok tt
    → (failed : List String) × (r ≡ ok failed)
deleted-ok (ok failed) e = (failed, refl)
deleted-ok (err x) e = absurd (ground arith)
