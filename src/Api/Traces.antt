-- ===== src/Api/Traces.antt =====
-- The trace ids that crates/api/src/middleware.rs takes from the headers, and the tasks' column for them.
use benri_stream.Prelude.{String, some, ◌≡◌, ◌≢◌, true}
use benri_stream.Platform.{Platform, ok}
use benri_stream.Db.Tasks.{too_long}
use benri_stream.UseCases.CompleteUpload
use benri_stream.UseCases.CompleteUpload.Accepted.{execute-long_trace}
use benri_stream.Effects.Ports.{Env, World, lift, on_error}
use benri_stream.Effects.Keeps.{Keeps, Keeps-bind, Keeps-lift, Keeps-on_error, Keeps-pure}
use benri_stream.UseCases.CompleteUpload.Refused.{ByOthers, untouched, execute_unmoved}
use benri_stream.Effects.Answers.{bind-ok, map_err-ok}
use benri_stream.Api.{
  HeaderMap, CompleteUploadResponse, from_complete_upload, parse_uuid, complete_upload,
  serve_complete, resolve_trace_id,
}

-- The trace id of the request is the header x-request-id, or else the header traceparent. If it is longer
-- than the 32 characters of its column, the request is not answered with a completed upload, and the
-- tables that it leaves are those that the other processes alone have made: it has stored no status
-- and no task, whatever the state of the tables, the file and the environment.
pub serve_complete-long_trace :
    (p : Platform) (env : Env) (headers : HeaderMap) (new_id raw_id : String) (w : World)
    (response : CompleteUploadResponse)
    → too_long (some (resolve_trace_id headers new_id)) ≡ true
    → ((serve_complete p env headers new_id raw_id w).0 ≢ ok response)
      × ByOthers env w.db (serve_complete p env headers new_id raw_id w).1.db
unfolding serve_complete complete_upload
serve_complete-long_trace p env headers new_id raw_id w response long =
    let trace = some (resolve_trace_id headers new_id) in
    let refused : (serve_complete p env headers new_id raw_id w).0 ≢ ok response = λ e.
      let (id, _, rest) = bind-ok (lift (parse_uuid p raw_id)) _ w response e in
      let (out, ran, _) =
        bind-ok (on_error from_complete_upload (CompleteUpload.execute p env trace id)) _ w response
          rest in
      execute-long_trace p env trace id w out long (map_err-ok from_complete_upload _ out ran) in
    let unmoved : Keeps (ByOthers env w.db) (serve_complete p env headers new_id raw_id) =
      Keeps-bind _ _ (Keeps-lift (parse_uuid p raw_id)) (λ id.
        Keeps-bind _ _
          (Keeps-on_error from_complete_upload _ (execute_unmoved p env trace long w.db id))
          (λ out. Keeps-pure _)) in
    (refused, unmoved.at w untouched)
