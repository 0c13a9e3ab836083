-- ===== src/Storage/Routing.antt =====
-- Every key of the program has a bucket: bucket_for of crates/infrastructure/src/storage/s3_client.rs
-- does not panic at them.
use Prim.Native.Char.{Char, char, code}
use Prim.Native.String
use text.Mathlib.Text.{starts_with}
use text.Mathlib.TextEquality.{starts_with_iff}
use text.Mathlib.TextPositions.{starts_with-append}
use text.Mathlib.TextLemmas.{cons-append, append_assoc, head-eq_of_cons-eq}
use benri_stream.Prelude.{
  String, false, some, [], ◌∷◌, ◌≡◌, ◌≢◌, refl, sym, ap, ◌∙◌, concat, Bool-cases, inl, inr, arith,
}
use benri_stream.Platform.{Platform, Uuid}
use benri_stream.Video.{Video, VideoFormat, storage_prefix}
use benri_stream.UseCases.InitiateUpload.{upload_key}
use benri_stream.Transcoder.Quality.{QualityLevel}
use benri_stream.Transcoder.Uploader.Files.{tier_object_key, master_filename}
use benri_stream.Storage.{Buckets, bucket_for, upload_prefix, output_prefix}

abbrev letter_u : Char
letter_u = char 117 tt

abbrev letter_v : Char
letter_v = char 118 tt

differ : code letter_u ≢ code letter_v
differ e = omega arith

not_upload : (rest : String) → starts_with (String.◌++◌ output_prefix rest) upload_prefix ≡ false
not_upload rest = elim (Bool-cases (starts_with (String.◌++◌ output_prefix rest) upload_prefix)) [
  | inr e ↦ e
  | inl e ↦
      let (u, same) = (starts_with_iff (String.◌++◌ output_prefix rest) upload_prefix).0 e in
      let heads : letter_u ≡ letter_v =
        head-eq_of_cons-eq
          (sym (cons-append letter_u "ploads/" u) ∙ same ∙ cons-append letter_v "ideos/" rest) in
      absurd (differ (ap code heads))
]

of_upload :
    (b : Buckets) (rest : String)
    → bucket_for b (String.◌++◌ upload_prefix rest) ≡ some b.upload_bucket
unfolding bucket_for
of_upload b rest = rw (starts_with-append upload_prefix rest) refl

of_output :
    (b : Buckets) (rest : String)
    → bucket_for b (String.◌++◌ output_prefix rest) ≡ some b.output_bucket
unfolding bucket_for
of_output b rest = rw (not_upload rest, starts_with-append output_prefix rest) refl

-- The original of a video is in the private bucket; the prefix of its output, the files of each tier
-- and the master playlist are in the public one.
pub keys-bucket :
    (b : Buckets) (p : Platform) (v : Video) (id : Uuid) (format : VideoFormat)
    (level : QualityLevel) (filename : String)
    → (bucket_for b (upload_key p id format) ≡ some b.upload_bucket)
      × (bucket_for b (storage_prefix p v) ≡ some b.output_bucket)
      × (bucket_for b (tier_object_key (storage_prefix p v) level filename) ≡ some b.output_bucket)
      × (bucket_for b (concat (storage_prefix p v ∷ master_filename ∷ [])) ≡ some b.output_bucket)
unfolding upload_key storage_prefix tier_object_key concat
keys-bucket b p v id format level filename = (
  of_upload b _,
  of_output b _,
  ap (bucket_for b) (append_assoc output_prefix _ _) ∙ of_output b _,
  ap (bucket_for b) (append_assoc output_prefix _ _) ∙ of_output b _,
)
