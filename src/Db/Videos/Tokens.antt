-- ===== src/Db/Videos/Tokens.antt =====
-- The share tokens of the rows that crates/infrastructure/src/postgres/video_repository.rs writes.
use benri_stream.Prelude.{
  String, Bool, true, not, ◌&&◌, Option, none, some, List, [], ◌∷◌, ◌++◌, ◌≡◌, refl, sym, ap, ◌∙◌,
  inl, inr, if◌then◌else◌, arith, eq_iff, eqb, eqb_iff, keep, update_where, Bool-cases, In, here,
  there, In-keep, In-append, In-update_where, any_of_In,
}
use benri_stream.Video.{
  Video, VideoId, VideoStatus, pending_upload, uploaded, processing, processed, failed, status_eq,
}
use benri_stream.Db.Videos.{has_token, at_status, token_allowed}

-- Before processing there is no share token, and a processed video has one.
abbrev pub TokenFits : VideoStatus → Option String → Type 0
TokenFits pending_upload token = token ≡ none
TokenFits uploaded token = token ≡ none
TokenFits processing token = Unit
TokenFits processed token = (t : String) × (token ≡ some t)
TokenFits failed token = Unit

abbrev pub UniqueTokens : List Video → Type 0
UniqueTokens vs =
    (v u : Video) (token : String)
    → In v vs
    → In u vs
    → v.share_token ≡ some token
    → u.share_token ≡ some token
    → v.id ≡ u.id

pub record IsWellFormed (vs : List Video) : Type 0 where
  pub formed : (v : Video) → In v vs → TokenFits v.status v.share_token
  pub unique : UniqueTokens vs

pub nil-IsWellFormed : IsWellFormed []
nil-IsWellFormed = record { formed = λ v i. elim i [ ]; unique = λ v u token i j. elim i [ ] }

token_of : (v : Video) (t : String) → v.share_token ≡ some t → has_token t v ≡ true
token_of v t e = ground (arith, eq_iff t t)

-- An update that changes no token and leaves each changed row with a status that fits.
module _ (test : Video → Bool) (change : Video → Video)
    (same_id : (v : Video) → (change v).id ≡ v.id)
    (same_token : (v : Video) → (change v).share_token ≡ v.share_token)
    (fits : (v : Video)
      → test v ≡ true
      → TokenFits v.status v.share_token
      → TokenFits (change v).status (change v).share_token) where
  row_formed :
      (v : Video)
      → TokenFits v.status v.share_token
      → TokenFits
          (if test v then change v else v).status
          (if test v then change v else v).share_token
  row_formed v h = elim (Bool-cases (test v)) [ inl e ↦ rw e (fits v e h) | inr e ↦ rw e h ]

  row_same :
      (v : Video)
      → ((if test v then change v else v).id ≡ v.id)
        × ((if test v then change v else v).share_token ≡ v.share_token)
  row_same v = elim (Bool-cases (test v)) [
    | inl e ↦ rw e (same_id v, same_token v)
    | inr e ↦ rw e (refl, refl)
  ]

  pub update_where-IsWellFormed :
      (vs : List Video) → IsWellFormed vs → IsWellFormed (update_where test change vs)
  update_where-IsWellFormed vs h = record {
    formed = λ v i.
        let (w, j, e) = In-update_where test change vs v i in rw e (row_formed w (h.formed w j));
    unique = λ v u token i j tv tu.
        let (w, wi, we) = In-update_where test change vs v i in
        let (x, xi, xe) = In-update_where test change vs u j in
        let same =
          h.unique w x token wi xi
            (sym (row_same w).1 ∙ sym (ap (λ (r : Video). r.share_token) we) ∙ tv)
            (sym (row_same x).1 ∙ sym (ap (λ (r : Video). r.share_token) xe) ∙ tu) in
        ap (λ (r : Video). r.id) we
        ∙ (row_same w).0
        ∙ same
        ∙ sym (row_same x).0
        ∙ sym (ap (λ (r : Video). r.id) xe);
  }

at_status-eq :
    (id : VideoId) (s : VideoStatus) (v : Video)
    → at_status id s v ≡ true
    → (v.id ≡ id) × (status_eq v.status s ≡ true)
at_status-eq id s v h = ground (arith, eqb_iff v.id id)

status_eq-processing : (s : VideoStatus) → status_eq s processing ≡ true → s ≡ processing
status_eq-processing s h = ground arith

-- The two updates that write a share token.
module _ (id : VideoId) (token : String) (change : Video → Video)
    (same_id : (v : Video) → (change v).id ≡ v.id)
    (written : (v : Video) → (change v).share_token ≡ some token)
    (fits : (v : Video)
      → v.status ≡ processing
      → TokenFits (change v).status (change v).share_token)
    (vs : List Video)
    (allowed : (v : Video)
      → In v vs
      → at_status id processing v ≡ true
      → token_allowed id token vs ≡ true) where
  abbrev changed : Video → Video
  changed v = if at_status id processing v then change v else v

  formed_row :
      (v : Video)
      → TokenFits v.status v.share_token
      → TokenFits (changed v).status (changed v).share_token
  formed_row v h = elim (Bool-cases (at_status id processing v)) [
    | inl e ↦ rw e (fits v (status_eq-processing v.status (at_status-eq id processing v e).1))
    | inr e ↦ rw e h
  ]

  -- No other row has the token that is written.
  other_row :
      (w u : Video)
      → In w vs
      → In u vs
      → at_status id processing w ≡ true
      → u.share_token ≡ some token
      → u.id ≡ id
  other_row w u wi ui e tu = elim (Bool-cases (eqb u.id id)) [
    | inl same ↦ (eqb_iff _ _).0 same
    | inr other ↦
        let taken =
          any_of_In (λ v. not (eqb v.id id) && has_token token v) vs u ui
            (ground (arith, token_of u token tu)) in
        let free = allowed w wi e in absurd (ground arith)
  ]

  same_row :
      (w x : Video) (t : String)
      → UniqueTokens vs
      → In w vs
      → In x vs
      → (changed w).share_token ≡ some t
      → (changed x).share_token ≡ some t
      → (changed w).id ≡ (changed x).id
  same_row w x t h wi xi tw tx = elim (Bool-cases (at_status id processing w)) [
    | inl e ↦ elim (Bool-cases (at_status id processing x)) [
      | inl f ↦
          rw (e, f)
            (same_id w
              ∙ (at_status-eq id processing w e).0
              ∙ sym (same_id x ∙ (at_status-eq id processing x f).0))
      | inr f ↦
          let wt : some token ≡ some t = sym (written w) ∙ (rw e at tw) in
          let xt : x.share_token ≡ some t = (rw f at tx) in
          rw (e, f)
            (same_id w
              ∙ (at_status-eq id processing w e).0
              ∙ sym (other_row w x wi xi e (xt ∙ sym wt)))
    ]
    | inr e ↦ elim (Bool-cases (at_status id processing x)) [
      | inl f ↦
          let wt : w.share_token ≡ some t = (rw e at tw) in
          let xt : some token ≡ some t = sym (written x) ∙ (rw f at tx) in
          rw (e, f)
            (other_row x w xi wi f (wt ∙ sym xt)
              ∙ sym (same_id x ∙ (at_status-eq id processing x f).0))
      | inr f ↦ rw (e, f) (h w x t wi xi (rw e at tw) (rw f at tx))
    ]
  ]

  pub write_token-IsWellFormed :
      IsWellFormed vs → IsWellFormed (update_where (at_status id processing) change vs)
  write_token-IsWellFormed h = record {
    formed = λ v i.
        let (w, j, e) = In-update_where (at_status id processing) change vs v i in
        rw e (formed_row w (h.formed w j));
    unique = λ v u t i j tv tu.
        let (w, wi, we) = In-update_where (at_status id processing) change vs v i in
        let (x, xi, xe) = In-update_where (at_status id processing) change vs u j in
        ap (λ (r : Video). r.id) we
        ∙ same_row w x t h.unique wi xi (sym (ap (λ (r : Video). r.share_token) we) ∙ tv)
            (sym (ap (λ (r : Video). r.share_token) xe) ∙ tu)
        ∙ sym (ap (λ (r : Video). r.id) xe);
  }

-- Rows that stay.
pub keep-IsWellFormed :
    (p : Video → Bool) (vs : List Video) → IsWellFormed vs → IsWellFormed (keep p vs)
keep-IsWellFormed p vs h = record {
  formed = λ v i. h.formed v (In-keep p vs v i).0;
  unique = λ v u t i j. h.unique v u t (In-keep p vs v i).0 (In-keep p vs u j).0;
}

-- A new row that has no share token yet.
pub append-IsWellFormed :
    (vs : List Video) (v : Video)
    → TokenFits v.status v.share_token
    → v.share_token ≡ none
    → IsWellFormed vs
    → IsWellFormed (vs ++ v ∷ [])
append-IsWellFormed vs v fits new h = record {
  formed =
      λ w i. elim (In-append vs (v ∷ []) w i) [ inl j ↦ h.formed w j | inr j ↦ rw (only w j) fits ];
  unique = λ w u t i j tw tu. elim (In-append vs (v ∷ []) w i) [
    | inl i' ↦ elim (In-append vs (v ∷ []) u j) [
      | inl j' ↦ h.unique w u t i' j' tw tu
      | inr j' ↦ cc (only u j', tu, new)
    ]
    | inr i' ↦ cc (only w i', tw, new)
  ];
}
  where
    only : (w : Video) → In w (v ∷ []) → w ≡ v
    only w (here e) = e
    only w (there i) = elim i [ ]
