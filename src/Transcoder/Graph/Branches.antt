-- ===== src/Transcoder/Graph/Branches.antt =====
-- What a pipeline has that build_parallel_pipeline of
-- crates/infrastructure/src/transcoder/gstreamer.rs has built.
use benri_stream.Prelude.{
  ℕ, String, Bool, true, List, [], ◌∷◌, ◌++◌, ◌≡◌, refl, subst, In, here, there, In-append_left,
}
use benri_stream.Platform.{Result, ok}
use benri_stream.Transcoder.Quality.{
  QualityLevel, low, medium, high, name, resolution, target_bitrate_bps,
}
use benri_stream.Transcoder.Graph.{
  Element, vscale, vcaps, venc, h264_caps, hlssink, audio_convert, audio_resample, audio_enc,
  audio_parse, Pipeline, Call, add_many, link_many, link_pads, chain, new, to_sink, video_chain,
  audio_chain, make_hlssink, video_convert, video_tee, audio_tee, vqueue, vparse, aqueue, dir_of,
  build_parallel_pipeline, build_calls, level_calls, build_level_branch, link_audio_branch,
  build_video_frontend, build_audio_frontend,
}
use benri_stream.Transcoder.Graph.Calls.{
  Within, Done, In-append_right, Within-cons, Within-snoc, In-nth, Performed, perform-Performed,
  perform_ok,
}
use benri_stream.Transcoder.Graph.Places.{In-level, In-audio_frontend, In-audio_branch}

-- Each element is in the pipeline, and is linked to the sink of the next.
abbrev pub IsRoute : Pipeline → List Element → Type 0
IsRoute p [] = Unit {0}
IsRoute p (a ∷ []) = In a p.elements
IsRoute p (a ∷ b ∷ rest) =
    In a p.elements
    × In (record { source = a; target = b; sink_pad = "sink" }) p.links
    × IsRoute p (b ∷ rest)

chain-IsRoute :
    (p : Pipeline) (es : List Element)
    → Within es p.elements
    → Within (chain es) p.links
    → IsRoute p es
chain-IsRoute p [] present linked = tt
chain-IsRoute p (a ∷ []) present linked = present a (here refl)
chain-IsRoute p (a ∷ b ∷ rest) present linked = (
  present a (here refl),
  linked _ (here refl),
  chain-IsRoute p (b ∷ rest) (λ x i. present x (there i)) (λ x i. linked x (there i)),
)

-- The table of the levels in .spec/architecture/backend/transcoding.md.
abbrev pub size : QualityLevel → ℕ × ℕ
size low = (640, 360)
size medium = (1280, 720)
size high = (1920, 1080)

abbrev pub kbps : QualityLevel → ℕ
kbps low = 800
kbps medium = 2500
kbps high = 5000

-- The video of a level: a queue, the scaling to its size, the encoder with its bitrate and a key
-- frame every 120 frames at least, the profile, and the parser.
abbrev pub encoding : QualityLevel → List Element
encoding level =
    vqueue level
    ∷ vscale level
    ∷ vcaps level (size level)
    ∷ venc level (kbps level) 120
    ∷ h264_caps level
    ∷ vparse level
    ∷ []

-- The sink of a level, with segments of 4 seconds in the directory of the level's name.
abbrev pub sink : List String → QualityLevel → Element
sink output_dir level =
    hlssink level 4 (output_dir ++ name level ∷ [] ++ "playlist.m3u8" ∷ [])
      (output_dir ++ name level ∷ [] ++ "segment_%05d.ts" ∷ [])

-- What the branch of a level is, from the front-ends to its sink.
pub record IsBranch (p : Pipeline) (output_dir : List String) (has_audio : Bool)
    (level : QualityLevel) : Type 0 where
  pub video : IsRoute p (video_convert ∷ video_tee ∷ encoding level)
  pub sink_present : In (sink output_dir level) p.elements
  pub video_sink :
      In
        (record { source = vparse level; target = sink output_dir level; sink_pad = "video" })
        p.links
  pub audio :
      has_audio ≡ true
      → IsRoute p
          (audio_convert ∷ audio_resample ∷ audio_enc ∷ audio_parse ∷ audio_tee ∷ aqueue level ∷ [])
        × In
            (record { source = aqueue level; target = sink output_dir level; sink_pad = "audio" })
            p.links

encoding_lem : (dir : List String) (level : QualityLevel) → video_chain dir level ≡ encoding level
unfolding resolution target_bitrate_bps
encoding_lem dir low = refl
encoding_lem dir medium = refl
encoding_lem dir high = refl

module _ (output_dir : List String) (has_audio : Bool) (input_url : String)
    (levels : List QualityLevel) (p : Pipeline)
    (done : (c : Call) → In c (build_calls output_dir has_audio input_url levels) → Done p c)
    (level : QualityLevel) (i : In level levels) where
  of_level : (c : Call) → In c (level_calls output_dir has_audio level) → Done p c
  of_level c k = done c (In-level output_dir has_audio input_url level levels i c k)

  own :
      Within (video_chain (dir_of output_dir level) level ++ sink output_dir level ∷ []) p.elements
  unfolding build_level_branch make_hlssink
  own = of_level (add_many "add level branch" _) (In-nth 8 _ refl)

  route_built : IsRoute p (video_convert ∷ video_tee ∷ video_chain (dir_of output_dir level) level)
  unfolding build_level_branch build_calls build_video_frontend
  route_built =
      let elements = video_chain (dir_of output_dir level) level in
      let calls = build_calls output_dir has_audio input_url levels in
      let ends = video_convert ∷ video_tee ∷ [] in
      let front = done (add_many "add video front-end" ends) (In-nth 3 calls refl) in
      let joined = done (link_many "link video front-end" ends) (In-nth 4 calls refl) in
      let fed =
        of_level (link_pads "link video tee" (to_sink video_tee (vqueue level)))
          (In-nth 15 _ refl) in
      let own_chain = of_level (link_many "link video chain" elements) (In-nth 9 _ refl) in
      chain-IsRoute p (video_convert ∷ video_tee ∷ elements)
        (Within-cons _ _ _ (front video_convert (here refl)) (
          Within-cons _ _ _ (front video_tee (there (here refl)))
            (λ x k. own x (In-append_left elements _ x k))))
        (Within-cons _ _ _ (joined _ (here refl)) (Within-cons _ _ _ fed own_chain))

  module _ (h : has_audio ≡ true) where
    of_audio : (c : Call) → In c (link_audio_branch (dir_of output_dir level) level) → Done p c
    of_audio c k = of_level c (In-audio_branch output_dir has_audio level h c k)

    of_frontend : (c : Call) → In c build_audio_frontend → Done p c
    of_frontend c k = done c (In-audio_frontend output_dir has_audio input_url levels h c k)

    audio_built : IsRoute p (audio_chain ++ aqueue level ∷ [])
    unfolding build_audio_frontend link_audio_branch
    audio_built =
        let front = of_frontend (add_many "add audio front-end" audio_chain) (In-nth 5 _ refl) in
        let shared = of_frontend (link_many "link audio front-end" audio_chain) (In-nth 6 _ refl) in
        let queue = of_audio (add_many "add aqueue" (aqueue level ∷ [])) (In-nth 1 _ refl) in
        let fed =
          of_audio (link_pads "link audio tee" (to_sink audio_tee (aqueue level)))
            (In-nth 4 _ refl) in
        chain-IsRoute p (audio_chain ++ aqueue level ∷ [])
          (Within-snoc audio_chain p.elements _ front (queue _ (here refl)))
          (Within-snoc (chain audio_chain) p.links _ shared fed)

  built-IsBranch : IsBranch p output_dir has_audio level
  unfolding build_level_branch link_audio_branch make_hlssink
  built-IsBranch = record {
    video =
        subst (λ es. IsRoute p (video_convert ∷ video_tee ∷ es))
          (encoding_lem (dir_of output_dir level) level) route_built;
    sink_present =
        own _ (In-append_right (video_chain (dir_of output_dir level) level) _ _ (here refl));
    video_sink = of_level (link_pads "link vparse→hlssink" _) (In-nth 12 _ refl);
    audio = λ h. (audio_built h, of_audio h (link_pads "link aqueue→hlssink" _) (In-nth 7 _ refl));
  }

-- A pipeline that is built without a failure has a branch for every level: the decoded video goes
-- by the one tee, a queue, the scaling to the level's resolution and an encoder with its bitrate
-- into the video pad of the sink that writes to the level's own directory, and the audio, if the
-- source has it, by the shared encoder and a queue into its audio pad.
pub build_parallel_pipeline-IsBranch :
    (output_dir : List String) (has_audio : Bool) (answer : ℕ → Result String (Unit {0}))
    (input_url : String) (levels : List QualityLevel) (p : Pipeline)
    → build_parallel_pipeline output_dir has_audio answer input_url levels ≡ ok p
    → (level : QualityLevel) → In level levels
    → IsBranch p output_dir has_audio level
unfolding build_parallel_pipeline Performed
build_parallel_pipeline-IsBranch output_dir has_audio answer input_url levels p e =
    built-IsBranch output_dir has_audio input_url levels p
      (perform-Performed answer 0 (build_calls output_dir has_audio input_url levels) new p e).1

-- When no call fails, the pipeline is built.
pub build_parallel_pipeline_ok :
    (output_dir : List String) (has_audio : Bool) (answer : ℕ → Result String (Unit {0}))
    (input_url : String) (levels : List QualityLevel)
    → ((k : ℕ) → answer k ≡ ok tt)
    → (p : Pipeline) × (build_parallel_pipeline output_dir has_audio answer input_url levels ≡ ok p)
unfolding build_parallel_pipeline
build_parallel_pipeline_ok output_dir has_audio answer input_url levels h =
    perform_ok answer 0 (build_calls output_dir has_audio input_url levels) new h
