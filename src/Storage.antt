-- ===== src/Storage.antt =====
-- crates/infrastructure/src/storage/s3_client.rs: the storage port on the calls of an S3 client.
pub mod Routing
pub mod Listing
pub mod Deletion
use Prim.Native.Char.{code}
use text.Mathlib.Text.{starts_with}
use benri_stream.Prelude.{
  ℕ, zero, suc, ℤ, pos, String, Bool, true, false, Option, none, some, List, [], ◌∷◌, is_empty,
  if◌then◌else◌, concat, eqb, trim_end, show_nat,
}
use benri_stream.Platform.{Result, ok, err, map_err}
use benri_stream.Effects.Ports.{StorageError, ObjectMetadata}

-- A page of `list_objects_v2`: the objects' keys, where they have one.
pub record Page : Type 0 where
  pub keys : List (Option String)
  pub is_truncated : Option Bool
  pub next_continuation_token : Option String

-- What `head_object` tells of an object.
pub record Head : Type 0 where
  pub content_length : Option ℤ
  pub content_type : Option String

-- An error of the client with its text.
pub record ServiceError : Type 0 where
  pub is_not_found : Bool
  pub text : String

-- The client's calls on a state of the buckets. `delete_objects` answers the keys that it reports as
-- not deleted.
pub record Client (S : Type 0) : Type 0 where
  pub head_object : (bucket key : String) → S → Result ServiceError Head
  pub get_range : (bucket key range : String) → S → Result ServiceError (List ℕ)
  pub put_object :
      (bucket key content_type : String) → List ℕ → S → Result ServiceError (Unit {0}) × S
  pub delete_object : (bucket key : String) → S → Result ServiceError (Unit {0}) × S
  pub list_objects_v2 :
      (bucket prefix : String) (continuation_token : Option String)
      → S
      → Result ServiceError Page × S
  pub delete_objects : (bucket : String) → List String → S → Result ServiceError (List String) × S

-- The routing of keys to buckets.
pub record Buckets : Type 0 where
  pub upload_bucket : String
  pub output_bucket : String
  pub cdn_base_url : String

abbrev pub upload_prefix : String
upload_prefix = "uploads/"

abbrev pub output_prefix : String
output_prefix = "videos/"

-- `none` is the panic.
unfoldable pub bucket_for : Buckets → String → Option String
bucket_for b key =
    if starts_with key upload_prefix
    then some b.upload_bucket
    else if starts_with key output_prefix
    then some b.output_bucket
    else none

unfoldable pub public_url : Buckets → String → String
unfolding trim_end
public_url b key = concat (trim_end (λ c. eqb (code c) b'/') b.cdn_base_url ∷ "/" ∷ key ∷ [])

abbrev pub internal : ServiceError → StorageError
internal e = StorageError.internal e.text

abbrev pub unwrap_or : Option ℤ → ℤ → ℤ
unwrap_or none default = default
unwrap_or (some n) default = n

abbrev pub head_answer : Result ServiceError Head → Result StorageError (Option ObjectMetadata)
head_answer (ok output) = ok (
    some (record {
      size_bytes = unwrap_or output.content_length (pos 0);
      content_type = output.content_type;
    }))
head_answer (err e) = if e.is_not_found then ok none else err (internal e)

abbrev pub routed : {A : Type 0} → Option String → (String → A) → Option A
routed none method = none
routed (some bucket) method = some (method bucket)

-- A method in the bucket of its key, or the panic.
abbrev pub in_bucket : {A : Type 0} → Buckets → String → (String → A) → Option A
in_bucket b key method = routed (bucket_for b key) method

-- The keys of the objects that have one.
unfoldable pub to_delete : List (Option String) → List String
to_delete [] = []
to_delete (none ∷ keys) = to_delete keys
to_delete (some key ∷ keys) = key ∷ to_delete keys

abbrev pub is_true : Option Bool → Bool
is_true none = false
is_true (some b) = b

-- The answer of the loop and the state at its end; `none` is a lack of fuel.
abbrev pub Answer : Type 0 → Type 0
Answer S = Option (Result StorageError (Unit {0}) × S)

module _ {S : Type 0} where
  -- After the deletion of a page: the next one, by `next`, or the end.
  abbrev pub after_page :
      (Option String → S → Answer S) → Page → Result StorageError (Unit {0}) × S → Answer S
  after_page next page (err e, s) = some (err e, s)
  after_page next page (ok _, s) =
      if is_true page.is_truncated then next page.next_continuation_token s else some (ok tt, s)

-- The keys that are reported as not deleted are not looked at.
abbrev pub deleted : Result ServiceError (List String) → Result StorageError (Unit {0})
deleted (ok failed) = ok tt
deleted (err e) = err (internal e)

module _ {S : Type 0} (client : Client S) where
  unfoldable pub head_object :
      Buckets → String → S → Option (Result StorageError (Option ObjectMetadata))
  head_object b key s = in_bucket b key (λ bucket. head_answer (client.head_object bucket key s))

  unfoldable pub read_range :
      Buckets → String → (start end : ℕ) → S → Option (Result StorageError (List ℕ))
  read_range b key start end s = in_bucket b key (λ bucket. map_err internal (
      client.get_range bucket key (concat ("bytes=" ∷ show_nat start ∷ "-" ∷ show_nat end ∷ [])) s))

  unfoldable pub upload_bytes :
      Buckets → String → List ℕ → String → S → Option (Result StorageError (Unit {0}) × S)
  upload_bytes b key bytes content_type s = in_bucket b key (λ bucket.
      let (r, s') = client.put_object bucket key content_type bytes s in (map_err internal r, s'))

  -- The file as it was read, or the text of the error.
  unfoldable pub upload_from_path :
      Buckets
      → Result String (List ℕ)
      → String
      → String
      → S
      → Option (Result StorageError (Unit {0}) × S)
  upload_from_path b (err message) key content_type s =
      some (err (StorageError.internal message), s)
  upload_from_path b (ok bytes) key content_type s = upload_bytes b key bytes content_type s

  unfoldable pub delete_object : Buckets → String → S → Option (Result StorageError (Unit {0}) × S)
  delete_object b key s =
      in_bucket b key
        (λ bucket. let (r, s') = client.delete_object bucket key s in (map_err internal r, s'))

  abbrev pub delete_page : String → List String → S → Result StorageError (Unit {0}) × S
  delete_page bucket keys s =
      if is_empty keys
      then (ok tt, s)
      else (let (r, s') = client.delete_objects bucket keys s in (deleted r, s'))

  abbrev pub on_page :
      (Option String → S → Answer S) → String → Result ServiceError Page × S → Answer S
  on_page next bucket (err e, s) = some (err (internal e), s)
  on_page next bucket (ok page, s) =
      after_page next page (delete_page bucket (to_delete page.keys) s)

  -- The loop, at most `fuel` pages; `none` is a lack of fuel.
  unfoldable pub delete_pages : ℕ → (bucket prefix : String) (token : Option String) → S → Answer S
  unfolding to_delete
  delete_pages zero bucket prefix token s = none
  delete_pages (suc fuel) bucket prefix token s =
      on_page (delete_pages fuel bucket prefix) bucket
        (client.list_objects_v2 bucket prefix token s)

  unfoldable pub delete_prefix : ℕ → Buckets → String → S → Option (Answer S)
  delete_prefix fuel b prefix s =
      in_bucket b prefix (λ bucket. delete_pages fuel bucket prefix none s)
