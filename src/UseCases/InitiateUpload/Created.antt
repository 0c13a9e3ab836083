-- ===== src/UseCases/InitiateUpload/Created.antt =====
-- The row after `execute` of crates/application/src/usecases/video/initiate_upload.rs.
use Prim.Native.String.{count}
use benri_stream.Prelude.{
  ◌+◌, ◌≤◌, String, false, some, List, [], ◌∷◌, ◌++◌, ◌≡◌, refl, sym, ap, subst, arith, In, here,
  there, trim, is_blank, ltb, Bool-cases, inl, inr,
}
use benri_stream.Platform.{Platform, ok, ok_or}
use benri_stream.Video.{Video, VideoFormat, pending_upload, max_title_length, max_upload_size_bytes}
use benri_stream.Video.Format
use benri_stream.Db.Videos
use benri_stream.Task.Scheduler.{database}
use benri_stream.Effects.Ports.{
  Env, World, M, lift, pure, on_error, show_repository_error, show_storage_error,
}
use benri_stream.Effects.Database.{statement}
use benri_stream.Effects.Answers.{bind-end, map_err-ok, ok_injective, ok_or-some}
use benri_stream.Effects.Frames.{statement-ok, statement-err}
use benri_stream.UseCases.InitiateUpload.{
  upload_expiry_secs, Input, Output, Error, unsupported_format, internal, new_video, upload_url,
  create_video, execute,
}

-- The new row waits for its upload, has the trimmed title, which is neither empty nor longer than
-- 100 characters, and the format of the MIME type; its id is the answer's.
pub record IsCreated (input : Input) (out : Output) (v : Video) : Type 0 where
  pub answer : out.id ≡ v.id
  pub waits : v.status ≡ pending_upload
  pub title : v.title ≡ trim input.title
  pub given : is_blank v.title ≡ false
  pub short : count v.title ≤ max_title_length
  pub format : Format.from_mime_type input.mime_type ≡ some v.format

url-end :
    (p : Platform) (env : Env) (v : Video) (mime_type : String) (w : World) (out : Output)
    (end : World)
    → upload_url p env v mime_type w ≡ (ok out, end)
    → (out.id ≡ v.id) × (end.db ≡ w.db)
unfolding upload_url
url-end p env v mime_type w out end e =
    let t = env w.turn in
    let w' = record w { turn = w.turn + 1 } in
    let link = t.presigned_upload v.upload_key mime_type max_upload_size_bytes upload_expiry_secs in
    let answer : String → M Error Output = λ url. pure (record { id = v.id; upload_url = url }) in
    let (url, got, rest) =
      bind-end (on_error (λ e. internal (show_storage_error e)) (lift link)) answer w' out end e in
    let is_out =
      ok_injective (ok (record { id = v.id; upload_url = url })) _ out refl (ap (λ x. x.0) rest) in
    (ap (λ o. o.id) (sym is_out), ap (λ x. x.1.db) (sym rest))

In-last : (vs : List Video) (v : Video) → In v (vs ++ v ∷ [])
In-last [] v = here refl
In-last (u ∷ vs) v = there (In-last vs v)

inserted-In :
    (env : Env) (v : Video) (w : World) (u : Unit {0})
    → (statement env (λ _. Videos.insert v) w).0 ≡ ok u
    → In v (statement env (λ _. Videos.insert v) w).1.db.videos
unfolding Videos.insert
inserted-In env v w u e =
    let db = (env w.turn).interfere w.db in
    elim (Bool-cases (Videos.row_allowed v db.videos)) [
      | inl fits ↦
          let (_, new) =
            statement-ok env (λ _. Videos.insert v) w tt
              (record db { videos = db.videos ++ v ∷ [] }) u (rw fits refl) e in
          rw new (In-last db.videos v)
      | inr broken ↦ absurd (
          statement-err env (λ _. Videos.insert v) w (database "videos: a constraint is violated") u
            (rw broken refl) e)
    ]

create-IsCreated :
    (p : Platform) (env : Env) (input : Input) (format : VideoFormat) (w : World) (out : Output)
    (end : World)
    → is_blank (trim input.title) ≡ false
    → ltb max_title_length (count (trim input.title)) ≡ false
    → Format.from_mime_type input.mime_type ≡ some format
    → create_video p env (trim input.title) input.mime_type format w ≡ (ok out, end)
    → (v : Video) × In v end.db.videos × IsCreated input out v
unfolding create_video new_video
create-IsCreated p env input format w out end given short known e =
    let t = env w.turn in
    let w' = record w { turn = w.turn + 1 } in
    let v = new_video p t (trim input.title) format in
    let add = statement env (λ _. Videos.insert v) in
    let (u, added, rest) =
      bind-end (on_error (λ e. internal (show_repository_error e)) add)
        (λ _. upload_url p env v input.mime_type) w' out end e in
    let (answer, same) = url-end p env v input.mime_type (add w').1 out end rest in
    (
      v,
      subst (λ db. In v db.videos) (sym same)
          (inserted-In env v w' u
            (map_err-ok (λ e. internal (show_repository_error e)) (add w').0 u added)),
      record {
        answer = answer;
        waits = refl;
        title = refl;
        given = given;
        short = ground arith;
        format = known;
      },
    )

-- If `execute` succeeds, then the table has a row for the new video: it waits for its upload, has
-- the trimmed title, not empty and at most 100 characters long, and the format that the MIME type
-- names; its id is the one in the answer.
pub execute-IsCreated :
    (p : Platform) (env : Env) (input : Input) (w : World) (out : Output) (end : World)
    → execute p env input w ≡ (ok out, end)
    → (v : Video) × In v end.db.videos × IsCreated input out v
unfolding execute
execute-IsCreated p env input w out end e = elim (Bool-cases (is_blank (trim input.title))) [
  | inl blank ↦ absurd (ground (arith, rw blank at e))
  | inr given ↦ elim (Bool-cases (ltb max_title_length (count (trim input.title)))) [
    | inl long ↦ absurd (ground (arith, rw long at (rw given at e)))
    | inr short ↦
        let e1 = rw short at (rw given at e) in
        let (format, known, rest) =
          bind-end (lift (ok_or (Format.from_mime_type input.mime_type) unsupported_format))
            (λ format. create_video p env (trim input.title) input.mime_type format) w out end e1 in
        create-IsCreated p env input format w out end given short
          (ok_or-some (Format.from_mime_type input.mime_type) unsupported_format format known) rest
  ]
]
