-- ===== src/Tests/Samples.antt =====
-- The inputs of the tests.
use benri_stream.Prelude.{none, some, [], ◌∷◌, ◌==◌, eqb, true, false, pos, if◌then◌else◌, refl}
use benri_stream.Platform.{Platform, ok, err}
use benri_stream.Video.{Video, pending_upload, uploaded, mp4}
use benri_stream.Task.Status.{in_progress}
use benri_stream.Task.Types.{Task}
use benri_stream.Task.Metadata.{process_video}
use benri_stream.Task.Scheduler.{build_pending_task, pending_task}
use benri_stream.Effects.Ports.{Env, Turn, World, no_fault}
use benri_stream.System.{IsBuilt}

abbrev pub platform : Platform
platform = record {
  show_uuid = λ id. if eqb id 7 then "seven" else "other";
  parse_uuid = λ s. none;
  show_duration = λ d. "long";
  video_id_to_value = λ id. ok "7";
  video_id_from_value = λ s. if s == "7" then ok 7 else err "no id";
  unit_to_value = ok "null";
  unit_from_value = λ s. ok tt;
}

abbrev pub video : Video
video = record {
  id = 7;
  share_token = none;
  title = "A walk";
  format = mp4;
  status = pending_upload;
  upload_key = "uploads/seven/original.mp4";
  created_at = pos 1000;
}

-- A quiet environment: no one else writes, nothing fails, and the clock stands still.
abbrev pub quiet : Turn
quiet = record {
  interfere = λ db. db;
  fault = no_fault;
  now = pos 2000;
  uuid = 11;
  share_token = "abc";
  presigned_upload = λ key content_type size expiry. ok "https://upload";
  head_object = λ key. ok none;
  read_range = λ key from to. ok [];
  storage_done = λ c. ok tt;
  probe = λ key. ok (record { width = 640; height = 360; codec = "h264"; has_audio = true });
  transcoded = λ key prefix probe. ok tt;
  first_segment = true;
  timed_out = false;
  acquired = λ key ttl. ok (some "token");
  published = ok tt;
  popped = ok none;
}

abbrev pub quiet_env : Env
quiet_env n = quiet

abbrev pub waiting : World
waiting = record {
  db = record { videos = video ∷ []; tasks = [] };
  turn = 0;
  storage = [];
  queue = [];
  released = [];
}

abbrev pub task : Task
task = pending_task (pos 2000) 11 none (process_video platform 7) none "7"

pub task-IsBuilt : IsBuilt task
unfolding build_pending_task process_video
task-IsBuilt = record {
  now = pos 2000;
  trace_id = none;
  metadata = process_video platform 7;
  run_at = none;
  built = refl;
}

-- The upload has arrived, and begins like an mp4 file.
abbrev pub arrived_env : Env
arrived_env n = record quiet {
  head_object = λ key. ok (some (record { size_bytes = pos 5000; content_type = none }));
  read_range = λ key from to.
      ok (0 ∷ 0 ∷ 0 ∷ 24 ∷ 102 ∷ 116 ∷ 121 ∷ 112 ∷ 105 ∷ 115 ∷ 111 ∷ 109 ∷ 0 ∷ 0 ∷ 2 ∷ 0 ∷ []);
}

-- A task of the video is in progress.
abbrev pub busy : World
busy = record waiting {
  db = record {
    videos = record video { status = uploaded } ∷ [];
    tasks = record task { status = in_progress; started_at = some (pos 2000) } ∷ [];
  };
}

-- A task of the video is due.
abbrev pub due : World
due = record waiting { db = record { videos = []; tasks = task ∷ [] } }
