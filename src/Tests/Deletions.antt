-- ===== src/Tests/Deletions.antt =====
-- A bucket that is listed on one page, and the theorem on delete_prefix at it.
use text.Mathlib.Text.{starts_with}
use text.Mathlib.TextPositions.{eq_refl}
use benri_stream.Prelude.{
  String, Bool, true, false, not, Option, none, some, List, [], ◌∷◌, ◌≡◌, ◌⊎◌, inl, inr, refl, sym,
  ap, ◌∙◌, In, here, there, In-keep, In-keep_back, In-of_any, any_of_In, any, keep, map, Bool-cases,
  ◌==◌, eq_iff, arith, subst,
}
use benri_stream.Platform.{Result, ok, err}
use benri_stream.Effects.Answers.{ok_injective}
use benri_stream.Effects.Ports.{StorageError}
use benri_stream.Storage.{Buckets, Client, Page, delete_prefix, bucket_for}
use benri_stream.Storage.Listing.{IsClient}
use benri_stream.Storage.Deletion.{delete_prefix-clears}

-- The keys of the only bucket.
abbrev Keys : Type 0
Keys = List String

abbrev without : List String → Keys → Keys
without gone keys = keep (λ k. not (any (λ g. g == k) gone)) keys

abbrev client : Client Keys
client = record {
  head_object = λ bucket key s. err (record { is_not_found = true; text = "not found" });
  get_range = λ bucket key range s. ok [];
  put_object = λ bucket key content_type bytes s. (ok tt, key ∷ s);
  delete_object = λ bucket key s. (ok tt, without (key ∷ []) s);
  list_objects_v2 = λ bucket prefix token s. (
    ok (record {
      keys = map some (keep (λ k. starts_with k prefix) s);
      is_truncated = some false;
      next_continuation_token = none;
    }),
    s,
  );
  delete_objects = λ bucket keys s. (ok [], without keys s);
}

is_held : String → Keys → Bool
is_held key s = any (λ k. k == key) s

map-In : (xs : List String) (x : String) → In x xs → In (some x) (map some xs)
map-In [] x i = elim i [ ]
map-In (y ∷ xs) x (here e) = here (ap some e)
map-In (y ∷ xs) x (there i) = there (map-In xs x i)

held_stays :
    (gone : List String) (key : String) (s : Keys)
    → is_held key s ≡ false
    → is_held key (without gone s) ≡ false
unfolding is_held
held_stays gone key s h = elim (Bool-cases (any (λ k. k == key) (without gone s))) [
  | inr e ↦ e
  | inl e ↦
      let (k, i, same) = In-of_any (λ k. k == key) (without gone s) e in
      let t =
        any_of_In (λ k. k == key) s k (In-keep (λ x. not (any (λ g. g == x) gone)) s k i).0 same in
      absurd (cc)
]

held_ends :
    (gone : List String) (key : String) (s : Keys)
    → In key gone
    → is_held key (without gone s) ≡ false
unfolding is_held
held_ends gone key s j = elim (Bool-cases (any (λ k. k == key) (without gone s))) [
  | inr e ↦ e
  | inl e ↦
      let (k, i, same) = In-of_any (λ k. k == key) (without gone s) e in
      let (_, kept) = In-keep (λ x. not (any (λ g. g == x) gone)) s k i in
      let t =
        any_of_In (λ g. g == k) gone key j
          (ap (λ x. key == x) ((eq_iff k key).0 same) ∙ eq_refl key) in
      absurd (cc (ap not t))
]

is_ahead : String → Option String → String → Bool
is_ahead prefix none key = starts_with key prefix
is_ahead prefix (some token) key = false

listed :
    (prefix key : String) (s : Keys)
    → starts_with key prefix ≡ true
    → In (some key) (map some (keep (λ k. starts_with k prefix) s)) ⊎ (is_held key s ≡ false)
unfolding is_held
listed prefix key s under = elim (Bool-cases (any (λ k. k == key) s)) [
  | inr e ↦ inr e
  | inl e ↦
      let (k, i, same) = In-of_any (λ k. k == key) s e in
      let equal = (eq_iff k key).0 same in
      inl (map-In _ key (In-keep_back (λ x. starts_with x prefix) s key (rw (sym equal) i) under))
]

page_of :
    (prefix key : String) (token : Option String) (s : Keys) (page : Page)
    → (client.list_objects_v2 "" prefix token s).0 ≡ ok page
    → is_ahead prefix token key ≡ true
    → In (some key) page.keys
      ⊎ (((page.is_truncated ≡ some true)
            × (is_ahead prefix page.next_continuation_token key ≡ true))
          ⊎ (is_held key s ≡ false))
unfolding is_ahead
page_of prefix key none s page e a =
    let same = ok_injective (ok page) _ page (sym e) refl in
    elim (listed prefix key s a) [
      | inl i ↦ inl (subst (λ (q : Page). In (some key) q.keys) same i)
      | inr gone ↦ inr (inr gone)
    ]
page_of prefix key (some t) s page e a = absurd (cc)

client-IsClient : IsClient client
unfolding is_ahead
client-IsClient = record {
  held = λ bucket key s. is_held key s;
  ahead = λ bucket prefix token key. is_ahead prefix token key;
  remaining = λ bucket prefix token s. 0;
  ahead_first = λ bucket prefix key e. e;
  list_keeps = λ bucket prefix key token s h. h;
  list_page = λ bucket prefix key token s page e a. page_of prefix key token s page e a;
  list_decreases = λ bucket prefix token s page e more. absurd (ground (arith, e, more));
  delete_keeps = λ bucket key keys s h. held_stays keys key s h;
  delete_decreases = λ bucket prefix token keys s. omega arith;
  delete_gone = λ bucket key keys failed s e i. inr (held_ends keys key s i);
}

abbrev stored : Keys
stored =
    "videos/seven/master.m3u8" ∷ "videos/other/master.m3u8" ∷ "videos/seven/low/playlist.m3u8" ∷ []

abbrev buckets : Buckets
buckets = record {
  upload_bucket = "originals";
  output_bucket = "public";
  cdn_base_url = "https://cdn";
}

routed : bucket_for buckets "videos/seven/" ≡ some "public"
unfolding bucket_for
routed = refl

delete_prefix-clears_example :
    (r : Result StorageError (Unit {0})) × (end : Keys) × (delete_prefix client 1 buckets
        "videos/seven/" stored
      ≡ some (some (r, end)))
    × (r ≡ ok tt
        → (key : String) → starts_with key "videos/seven/" ≡ true
        → client-IsClient.held "public" key end ≡ false)
unfolding client-IsClient
delete_prefix-clears_example =
    delete_prefix-clears client client-IsClient buckets "videos/seven/" "public" 1 stored
      (λ keys failed t e. ground (arith, e)) routed (omega arith)
