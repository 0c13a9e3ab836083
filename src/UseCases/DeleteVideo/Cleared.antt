-- ===== src/UseCases/DeleteVideo/Cleared.antt =====
-- The row and the objects after `execute` of crates/application/src/usecases/video/delete_video.rs.
use benri_stream.Prelude.{
  Bool, false, not, some, List, [], ◌∷◌, ◌++◌, ◌≡◌, refl, sym, ap, subst, ◌∙◌, find, any, keep, eqb,
  Bool-cases, inl, inr,
}
use mathlib.Core.List.{append_assoc}
use benri_stream.Platform.{Platform, ok, ok_or}
use benri_stream.Video.{Video, VideoId, storage_prefix}
use benri_stream.Db.Videos
use benri_stream.Effects.Ports.{Env, World, lift, on_error, deleted_prefix, deleted_object}
use benri_stream.Effects.Database.{statement, storage_call}
use benri_stream.Effects.Answers.{bind-end, map_err-ok, ok_or-some}
use benri_stream.Effects.Frames.{statement-rest, statement-ok, storage_call-ok, found-find}
use benri_stream.UseCases.DeleteVideo.{execute, video_not_found, db_error, storage_error}

any-keep-not : {A : Type 0} (p : A → Bool) (xs : List A) → any p (keep (λ a. not (p a)) xs) ≡ false
any-keep-not p [] = refl
any-keep-not p (x ∷ xs) = elim (Bool-cases (p x)) [
  | inl e ↦ rw e (any-keep-not p xs)
  | inr e ↦ rw e (rw e (any-keep-not p xs))
]

delete-gone :
    (env : Env) (id : VideoId) (w : World) (u : Unit {0})
    → (statement env (λ _. Videos.delete id) w).0 ≡ ok u
    → any (λ v. eqb v.id id) (statement env (λ _. Videos.delete id) w).1.db.videos ≡ false
unfolding Videos.delete
delete-gone env id w u e =
    let (_, db) = statement-ok env (λ _. Videos.delete id) w tt _ u refl e in
    rw db (any-keep-not (λ v. eqb v.id id) ((env w.turn).interfere w.db).videos)

-- If `execute` succeeds, then the video that it found has no row, and the storage has answered Ok to two
-- calls of this run, and to no other: first to the deletion of the video's prefix, then to that of its
-- original.
pub execute-cleared :
    (p : Platform) (env : Env) (id : VideoId) (w end : World)
    → execute p env id w ≡ (ok tt, end)
    → (video : Video) × (find (λ v. eqb v.id id) ((env w.turn).interfere w.db).videos ≡ some video)
      × (any (λ v. eqb v.id video.id) end.db.videos ≡ false)
      × (end.storage
          ≡ w.storage
            ++ deleted_prefix (storage_prefix p video) ∷ deleted_object video.upload_key ∷ [])
unfolding execute
execute-cleared p env id w end e =
    let ask = statement env (λ _. Videos.find_by_id id) in
    let (found, asked, e1) = bind-end (on_error db_error ask) _ w tt end e in
    let (video, present, e2) = bind-end (lift (ok_or found video_not_found)) _ _ tt end e1 in
    let prefix = deleted_prefix (storage_prefix p video) in
    let original = deleted_object video.upload_key in
    let w1 = (ask w).1 in
    let (u, cleared, e3) =
      bind-end (on_error storage_error (storage_call env prefix)) _ w1 tt end e2 in
    let w2 = (storage_call env prefix w1).1 in
    let (u', removed, e4) =
      bind-end (on_error storage_error (storage_call env original)) _ w2 tt end e3 in
    let w3 = (storage_call env original w2).1 in
    let gone = statement env (λ _. Videos.delete video.id) in
    let done = map_err-ok db_error (gone w3).0 tt (ap (λ r. r.0) e4) in
    let same : (gone w3).1 ≡ end = ap (λ r. r.1) e4 in
    let s1 = (statement-rest env (λ _. Videos.find_by_id id) w).0 in
    let s2 = storage_call-ok env prefix w1 u (map_err-ok storage_error _ u cleared) in
    let s3 = storage_call-ok env original w2 u' (map_err-ok storage_error _ u' removed) in
    let s4 = (statement-rest env (λ _. Videos.delete video.id) w3).0 in
    (
      video,
      sym (found-find env id w found (map_err-ok db_error _ found asked))
          ∙ ok_or-some found _ video present,
      subst (λ x. any (λ v. eqb v.id video.id) x.db.videos ≡ false) same
          (delete-gone env video.id w3 tt done),
      ap (λ x. x.storage) (sym same)
          ∙ s4
          ∙ s3
          ∙ ap (λ x. x ++ original ∷ []) (s2 ∙ ap (λ x. x ++ prefix ∷ []) s1)
          ∙ append_assoc w.storage (prefix ∷ []) (original ∷ []),
    )
