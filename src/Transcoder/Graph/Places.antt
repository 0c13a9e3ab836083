-- ===== src/Transcoder/Graph/Places.antt =====
-- Where the calls of a level and of the audio stand among those of build_parallel_pipeline of
-- crates/infrastructure/src/transcoder/gstreamer.rs.
use benri_stream.Prelude.{
  String, Bool, true, List, [], ◌∷◌, ◌≡◌, subst, In, there, In-append_left, In-cons, inl, inr,
}
use benri_stream.Transcoder.Quality.{QualityLevel}
use benri_stream.Transcoder.Graph.{
  dir_of, build_calls, build_levels, level_calls, build_level_branch, link_audio_branch,
  build_video_frontend, build_audio_frontend, when,
}
use benri_stream.Transcoder.Graph.Calls.{Within, In-append_right}

module _ (output_dir : List String) (has_audio : Bool) where
  In-build_levels :
      (level : QualityLevel) (levels : List QualityLevel)
      → In level levels
      → Within (level_calls output_dir has_audio level) (build_levels output_dir has_audio levels)
  unfolding build_levels
  In-build_levels level [] i c k = elim i [ ]
  In-build_levels level (l ∷ levels) i c k = elim (In-cons i) [
    | inl same ↦
        In-append_left (level_calls output_dir has_audio l) _ c
          (subst (λ m. In c (level_calls output_dir has_audio m)) same k)
    | inr j ↦
        In-append_right (level_calls output_dir has_audio l) _ c
          (In-build_levels level levels j c k)
  ]

  -- The calls of a level are among those of the whole.
  pub In-level :
      (input_url : String) (level : QualityLevel) (levels : List QualityLevel)
      → In level levels
      → Within
          (level_calls output_dir has_audio level)
          (build_calls output_dir has_audio input_url levels)
  unfolding build_calls build_video_frontend
  In-level input_url level levels i c k =
      let rest = there (In-build_levels level levels i c k) in
      there (
        there
          (there (there (there (In-append_right (when has_audio build_audio_frontend) _ c rest)))))

  -- The calls of the audio, when there is one.
  pub In-audio_frontend :
      (input_url : String) (levels : List QualityLevel)
      → has_audio ≡ true
      → Within build_audio_frontend (build_calls output_dir has_audio input_url levels)
  unfolding build_calls build_video_frontend
  In-audio_frontend input_url levels h c k = there (
      there
        (there (there (there (In-append_left (when has_audio build_audio_frontend) _ c (rw h k))))))

  pub In-audio_branch :
      (level : QualityLevel)
      → has_audio ≡ true
      → Within
          (link_audio_branch (dir_of output_dir level) level)
          (level_calls output_dir has_audio level)
  In-audio_branch level h c k =
      there (In-append_right (build_level_branch (dir_of output_dir level) level) _ c (rw h k))
