-- ===== src/Transcoder/Graph.antt =====
-- The pipeline that `build_parallel_pipeline` of crates/infrastructure/src/transcoder/gstreamer.rs
-- builds. Each function is the sequence of its calls that can fail; the first that fails ends it.
pub mod Calls
pub mod Places
pub mod Branches
use benri_stream.Prelude.{ℕ, suc, ◌*◌, ◌/◌, String, Bool, true, false, List, [], ◌∷◌, ◌++◌, concat}
use benri_stream.Platform.{Result, ok, err}
use benri_stream.Effects.Ports.{TranscoderError, transcode_failed}
use benri_stream.Transcoder.Quality.{QualityLevel, name, resolution, target_bitrate_bps}
use benri_stream.Transcoder.Uploader.Files.{segment_duration_secs, playlist_filename}

-- The elements with the settings that depend on the level. A path is the list of its components.
pub data Element : Type 0 where
  uridecodebin3 : (uri : String) → Element
  video_convert video_tee : Element
  audio_convert audio_resample audio_enc audio_parse audio_tee : Element
  vqueue vscale h264_caps vparse aqueue : QualityLevel → Element
  vcaps : QualityLevel → (size : ℕ × ℕ) → Element
  venc : QualityLevel → (bitrate_kbps key_int_max : ℕ) → Element
  hlssink :
      QualityLevel → (target_duration : ℕ) (playlist_location location : List String) → Element

-- A pad of `source` is linked to the pad `sink_pad` of `target`.
pub record Link : Type 0 where
  pub source : Element
  pub target : Element
  pub sink_pad : String

pub record Pipeline : Type 0 where
  pub elements : List Element
  pub links : List Link

unfoldable pub new : Pipeline
new = record { elements = []; links = [] }

-- The calls that can fail, each with the text of its failure: `build` of an element, `add_many`,
-- `link_many`, the getting of a pad, the linking of two pads, and `create_dir_all`.
pub data Call : Type 0 where
  make : (label : String) → Call
  add_many : (label : String) → List Element → Call
  link_many : (label : String) → List Element → Call
  get_pad : (label : String) → Call
  link_pads : (label : String) → Link → Call
  create_dir_all : (path : List String) → Call

abbrev pub message : Call → String → String
message (make label) e = concat (label ∷ ": " ∷ e ∷ [])
message (add_many label _) e = concat (label ∷ ": " ∷ e ∷ [])
message (link_many label _) e = concat (label ∷ ": " ∷ e ∷ [])
message (get_pad label) e = label
message (link_pads label _) e = concat (label ∷ ": " ∷ e ∷ [])
message (create_dir_all _) e = concat ("mkdir: " ∷ e ∷ [])

abbrev pub to_sink : Element → Element → Link
to_sink source target = record { source = source; target = target; sink_pad = "sink" }

-- The links between neighbours.
abbrev pub chain : List Element → List Link
chain [] = []
chain (a ∷ []) = []
chain (a ∷ b ∷ rest) = to_sink a b ∷ chain (b ∷ rest)

unfoldable pub effect : Call → Pipeline → Pipeline
effect (make _) p = p
effect (add_many _ es) p = record p { elements = es ++ p.elements }
effect (link_many _ es) p = record p { links = chain es ++ p.links }
effect (get_pad _) p = p
effect (link_pads _ l) p = record p { links = l ∷ p.links }
effect (create_dir_all _) p = p

-- `answer` gives what the library and the file system answer to the n-th call.
unfoldable pub perform :
    (ℕ → Result String (Unit {0})) → ℕ → List Call → Pipeline → Result TranscoderError Pipeline
unfolding effect
perform answer n [] p = ok p
perform answer n (c ∷ cs) p = elim (answer n) [
  | err e ↦ err (transcode_failed (message c e))
  | ok _ ↦ perform answer (suc n) cs (effect c p)
]

unfoldable pub build_video_frontend : List Call
build_video_frontend =
    make "videoconvert"
    ∷ make "video tee"
    ∷ add_many "add video front-end" (video_convert ∷ video_tee ∷ [])
    ∷ link_many "link video front-end" (video_convert ∷ video_tee ∷ [])
    ∷ []

abbrev pub audio_chain : List Element
audio_chain = audio_convert ∷ audio_resample ∷ audio_enc ∷ audio_parse ∷ audio_tee ∷ []

unfoldable pub build_audio_frontend : List Call
build_audio_frontend =
    make "audioconvert"
    ∷ make "audioresample"
    ∷ make "avenc_aac"
    ∷ make "aacparse"
    ∷ make "audio tee"
    ∷ add_many "add audio front-end" audio_chain
    ∷ link_many "link audio front-end" audio_chain
    ∷ []

module _ (level_dir : List String) (level : QualityLevel) where
  unfoldable pub make_hlssink : Element
  make_hlssink =
      hlssink level segment_duration_secs (level_dir ++ playlist_filename ∷ [])
        (level_dir ++ "segment_%05d.ts" ∷ [])

  abbrev pub video_chain : List Element
  video_chain =
      vqueue level
      ∷ vscale level
      ∷ vcaps level (resolution level)
      ∷ venc level (target_bitrate_bps level / 1000) (segment_duration_secs * 30)
      ∷ h264_caps level
      ∷ vparse level
      ∷ []

  unfoldable pub build_level_branch : List Call
  unfolding make_hlssink
  build_level_branch =
      make "vqueue"
      ∷ make "videoscale"
      ∷ make "capsfilter"
      ∷ make "x264enc"
      ∷ make "h264 capsfilter"
      ∷ make "h264parse"
      ∷ make "hlssink2"
      ∷ add_many "add level branch" (video_chain ++ make_hlssink ∷ [])
      ∷ link_many "link video chain" video_chain
      ∷ get_pad "hlssink2 video pad"
      ∷ get_pad "vparse src pad"
      ∷ link_pads "link vparse→hlssink"
          (record { source = vparse level; target = make_hlssink; sink_pad = "video" })
      ∷ get_pad "video tee src pad"
      ∷ get_pad "vqueue sink pad"
      ∷ link_pads "link video tee" (to_sink video_tee (vqueue level))
      ∷ []

  unfoldable pub link_audio_branch : List Call
  unfolding make_hlssink
  link_audio_branch =
      make "aqueue"
      ∷ add_many "add aqueue" (aqueue level ∷ [])
      ∷ get_pad "audio tee src pad"
      ∷ get_pad "aqueue sink pad"
      ∷ link_pads "link audio tee" (to_sink audio_tee (aqueue level))
      ∷ get_pad "hlssink2 audio pad"
      ∷ get_pad "aqueue src pad"
      ∷ link_pads "link aqueue→hlssink"
          (record { source = aqueue level; target = make_hlssink; sink_pad = "audio" })
      ∷ []

abbrev pub when : Bool → List Call → List Call
when true calls = calls
when false calls = []

-- The directory of a level.
abbrev pub dir_of : List String → QualityLevel → List String
dir_of output_dir level = output_dir ++ name level ∷ []

module _ (output_dir : List String) (has_audio : Bool) where
  abbrev pub level_calls : QualityLevel → List Call
  level_calls level =
      create_dir_all (dir_of output_dir level)
      ∷ (build_level_branch (dir_of output_dir level) level
          ++ when has_audio (link_audio_branch (dir_of output_dir level) level))

  unfoldable pub build_levels : List QualityLevel → List Call
  build_levels [] = []
  build_levels (level ∷ levels) = level_calls level ++ build_levels levels

  unfoldable pub build_calls : String → List QualityLevel → List Call
  unfolding build_video_frontend build_audio_frontend build_levels
  build_calls input_url quality_levels =
      make "uridecodebin3"
      ∷ (build_video_frontend
          ++ (when has_audio build_audio_frontend
              ++ add_many "add src" (uridecodebin3 input_url ∷ []) ∷ build_levels quality_levels))

  unfoldable pub build_parallel_pipeline :
      (ℕ → Result String (Unit {0})) → String → List QualityLevel → Result TranscoderError Pipeline
  unfolding build_calls perform
  build_parallel_pipeline answer input_url quality_levels =
      perform answer 0 (build_calls input_url quality_levels) new
