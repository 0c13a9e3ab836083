-- ===== src/Api.antt =====
-- crates/api/src/handlers/video.rs and middleware.rs: the requests, with their answers as values.
pub mod Errors
pub mod Traces
use benri_stream.Prelude.{ℕ, String, Option, none, some, [], ◌∷◌, concat}
use benri_stream.Platform.{Platform, Uuid, Result, ok, err, ok_or}
use benri_stream.Video.Status.{as_str}
use benri_stream.UseCases.InitiateUpload
use benri_stream.UseCases.CompleteUpload
use benri_stream.UseCases.GetVideo
use benri_stream.Effects.Ports.{Env, M, pure, lift, on_error, ◌>>=◌}

pub record InitiateUploadRequest : Type 0 where
  pub title : String
  pub mime_type : String

pub record InitiateUploadResponse : Type 0 where
  pub id : Uuid
  pub upload_url : String

pub record CompleteUploadResponse : Type 0 where
  pub id : Uuid
  pub status : String

pub record VideoStatusResponse : Type 0 where
  pub status : String
  pub share_url : Option String

pub record VideoByTokenResponse : Type 0 where
  pub title : String
  pub stream_url : Option String

-- The body's `error` is the message.
pub record ApiError : Type 0 where
  pub status : ℕ
  pub code : String
  pub error : String

abbrev pub new : ℕ → String → String → ApiError
new status code message = record { status = status; code = code; error = message }

abbrev pub internal_error : String → ApiError
internal_error message = new 500 "INTERNAL_ERROR" (concat ("internal error: " ∷ message ∷ []))

-- `From` of each use case's error, with the error's Display as the message.
unfoldable pub from_initiate_upload : InitiateUpload.Error → ApiError
from_initiate_upload InitiateUpload.title_required = new 400 "TITLE_REQUIRED" "title is required"
from_initiate_upload InitiateUpload.title_too_long =
    new 400 "TITLE_TOO_LONG" "title exceeds maximum length"
from_initiate_upload InitiateUpload.unsupported_format =
    new 400 "UNSUPPORTED_FORMAT" "unsupported video format"
from_initiate_upload (InitiateUpload.internal m) = internal_error m

unfoldable pub from_complete_upload : CompleteUpload.Error → ApiError
from_complete_upload CompleteUpload.video_not_found = new 404 "VIDEO_NOT_FOUND" "video not found"
from_complete_upload CompleteUpload.already_completed =
    new 409 "ALREADY_COMPLETED" "already completed"
from_complete_upload CompleteUpload.file_not_found_in_storage =
    new 404 "FILE_NOT_FOUND_IN_STORAGE" "file not found in storage"
from_complete_upload CompleteUpload.file_too_large =
    new 413 "FILE_TOO_LARGE" "file exceeds maximum size"
from_complete_upload CompleteUpload.invalid_file_signature =
    new 422 "INVALID_FILE_SIGNATURE" "file signature does not match declared format"
from_complete_upload (CompleteUpload.internal m) = internal_error m

-- The two use cases that read have the same errors.
unfoldable pub from_get_video : GetVideo.Error → ApiError
from_get_video GetVideo.video_not_found = new 404 "VIDEO_NOT_FOUND" "video not found"
from_get_video (GetVideo.internal m) = internal_error m

-- The text of an incoming header, if it is there and is a text.
abbrev pub HeaderMap : Type 0
HeaderMap = String → Option String

abbrev pub or_else : Option String → Option String → Option String
or_else none other = other
or_else (some s) other = some s

abbrev pub unwrap_or : Option String → String → String
unwrap_or none default = default
unwrap_or (some s) default = s

-- `new_id` is the simple form of a new UUID.
unfoldable pub resolve_trace_id : HeaderMap → (new_id : String) → String
resolve_trace_id headers new_id =
    unwrap_or (or_else (headers "x-request-id") (headers "traceparent")) new_id

module _ (p : Platform) where
  unfoldable pub parse_uuid : String → Result ApiError Uuid
  parse_uuid raw =
      ok_or (p.parse_uuid raw)
        (new 400 "INVALID_VIDEO_ID" (concat ("'" ∷ raw ∷ "' is not a valid video id" ∷ [])))

  module _ (env : Env) where
    unfoldable pub initiate_upload : InitiateUploadRequest → M ApiError InitiateUploadResponse
    initiate_upload body = do
      out ←
          on_error from_initiate_upload (
            InitiateUpload.execute p env
              (record { title = body.title; mime_type = body.mime_type }))
      pure (record { id = out.id; upload_url = out.upload_url })

    -- `trace` is the ambient trace id.
    unfoldable pub complete_upload :
        (trace : Option String) → String → M ApiError CompleteUploadResponse
    complete_upload trace raw_id = do
      id ← lift (parse_uuid raw_id)
      out ← on_error from_complete_upload (CompleteUpload.execute p env trace id)
      pure (record { id = out.id; status = as_str out.status })

    unfoldable pub get_video_status : (base_url : String) → String → M ApiError VideoStatusResponse
    get_video_status base_url raw_id = do
      id ← lift (parse_uuid raw_id)
      out ← on_error from_get_video (GetVideo.get_video_status env base_url id)
      pure (record { status = as_str out.status; share_url = out.share_url })

    unfoldable pub get_video_by_token :
        (cdn_base_url : String) → String → M ApiError VideoByTokenResponse
    get_video_by_token cdn_base_url share_token = do
      out ← on_error from_get_video (GetVideo.get_video_by_token env p cdn_base_url share_token)
      pure (record { title = out.title; stream_url = out.stream_url })

    -- A request to complete an upload, through `trace_id_middleware`.
    unfoldable pub serve_complete :
        HeaderMap → (new_id : String) → String → M ApiError CompleteUploadResponse
    serve_complete headers new_id = complete_upload (some (resolve_trace_id headers new_id))
