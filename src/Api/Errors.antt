-- ===== src/Api/Errors.antt =====
-- The answers of crates/api/src/handlers/video.rs when something is refused.
use benri_stream.Prelude.{
  String, Option, none, some, [], ◌∷◌, ◌≡◌, ◌≢◌, ◌⊎◌, ◌<◌, ◌≤◌, inl, inr, refl, arith, false,
  concat, Option-cases, ◌==◌, eq_iff,
}
use benri_stream.Platform.{Platform, Uuid, Result, ok, err, map_err}
use benri_stream.Video.Status.{as_str}
use benri_stream.UseCases.CompleteUpload
use benri_stream.Effects.Ports.{Env, World, M, pure, continue}
use benri_stream.Api.{
  ApiError, CompleteUploadResponse, new, from_complete_upload, parse_uuid, complete_upload,
}

-- The body and the status for an id that is no UUID.
abbrev pub invalid_id : String → ApiError
invalid_id raw = new 400 "INVALID_VIDEO_ID" (concat ("'" ∷ raw ∷ "' is not a valid video id" ∷ []))

other : (code : String) → (code == "INTERNAL_ERROR") ≡ false → code ≢ "INTERNAL_ERROR"
other code h same = let t = (eq_iff code "INTERNAL_ERROR").1 same in absurd (cc)

-- How the answer of the use case shows in the response.
abbrev pub IsAnswer :
    Result CompleteUpload.Error CompleteUpload.Output
    → Result ApiError CompleteUploadResponse
    → Type 0
IsAnswer (ok out) answer = answer ≡ ok (record { id = out.id; status = as_str out.status })
IsAnswer (err (CompleteUpload.internal m)) answer =
    (a : ApiError) × (answer ≡ err a) × (a.status ≡ 500) × (a.code ≡ "INTERNAL_ERROR")
IsAnswer (err e) answer =
    (a : ApiError) × (answer ≡ err a)
    × (400 ≤ a.status)
    × (a.status < 500)
    × (a.code ≢ "INTERNAL_ERROR")

respond : CompleteUpload.Output → M ApiError CompleteUploadResponse
respond out = pure (record { id = out.id; status = as_str out.status })

answered :
    (r : Result CompleteUpload.Error CompleteUpload.Output) (w : World)
    → ((continue (map_err from_complete_upload r) respond w).1 ≡ w)
      × IsAnswer r (continue (map_err from_complete_upload r) respond w).0
unfolding respond from_complete_upload
answered (ok out) w = (refl, refl)
answered (err (CompleteUpload.internal m)) w = (refl, (_, refl, refl, refl))
answered (err CompleteUpload.video_not_found) w =
    (refl, (_, refl, omega arith, omega arith, other _ refl))
answered (err CompleteUpload.already_completed) w =
    (refl, (_, refl, omega arith, omega arith, other _ refl))
answered (err CompleteUpload.file_not_found_in_storage) w =
    (refl, (_, refl, omega arith, omega arith, other _ refl))
answered (err CompleteUpload.file_too_large) w =
    (refl, (_, refl, omega arith, omega arith, other _ refl))
answered (err CompleteUpload.invalid_file_signature) w =
    (refl, (_, refl, omega arith, omega arith, other _ refl))

-- An id that is no UUID is refused with 400 before anything is asked of the outside; else the answer
-- of complete_upload comes from its use case for that id, run in the same world, and an error of the
-- use case is answered with 500 if it is internal, and with 400 to 499 if not.
pub complete_upload-IsAnswer :
    (p : Platform) (env : Env) (trace : Option String) (raw : String) (w : World)
    → ((p.parse_uuid raw ≡ none) × (complete_upload p env trace raw w ≡ (err (invalid_id raw), w)))
      ⊎ ((id : Uuid) × (p.parse_uuid raw ≡ some id)
          × (let (r, w') = CompleteUpload.execute p env trace id w in
              ((complete_upload p env trace raw w).1 ≡ w')
              × IsAnswer r (complete_upload p env trace raw w).0))
unfolding complete_upload parse_uuid respond
complete_upload-IsAnswer p env trace raw w = elim (Option-cases (p.parse_uuid raw)) [
  | inl e ↦ inl (e, rw e refl)
  | inr (id, e) ↦
      let r = CompleteUpload.execute p env trace id w in inr (id, e, rw e (answered r.0 r.1))
]
