-- ===== src/Tests/Graphs.antt =====
-- A pipeline for two tiers with audio, one whose library fails, and the theorem at the first.
use benri_stream.Prelude.{
  ℕ, String, true, false, List, [], ◌∷◌, ◌≡◌, refl, here, there, concat, if◌then◌else◌, eqb,
}
use benri_stream.Platform.{Result, ok, err}
use benri_stream.Effects.Ports.{TranscoderError, transcode_failed}
use benri_stream.Transcoder.Quality.{QualityLevel, low, high}
use benri_stream.Transcoder.Graph.{
  Pipeline, new, perform, build_parallel_pipeline, build_calls, build_levels, build_level_branch,
  link_audio_branch, build_video_frontend, build_audio_frontend,
}
use benri_stream.Transcoder.Graph.Branches.{IsBranch, build_parallel_pipeline-IsBranch}

abbrev answers : ℕ → Result String (Unit {0})
answers n = ok tt

abbrev both : List QualityLevel
both = high ∷ low ∷ []

abbrev or_new : Result TranscoderError Pipeline → Pipeline
or_new (ok p) = p
or_new (err _) = new

abbrev out : List String
out = "/tmp" ∷ "1" ∷ []

abbrev built : Pipeline
built = or_new (build_parallel_pipeline out true answers "http://minio:9000/1" both)

built_ok : build_parallel_pipeline out true answers "http://minio:9000/1" both ≡ ok built
unfolding build_parallel_pipeline perform build_calls build_levels build_level_branch
    link_audio_branch build_video_frontend build_audio_frontend
built_ok = refl

abbrev no_x264 : ℕ → Result String (Unit {0})
no_x264 n = if eqb n 10 then err "no element" else ok tt

without_x264 :
    build_parallel_pipeline out false no_x264 "http://minio:9000/1" both
    ≡ err (transcode_failed "x264enc: no element")
unfolding build_parallel_pipeline perform build_calls build_levels build_level_branch
    link_audio_branch build_video_frontend build_audio_frontend concat
without_x264 = refl

build_parallel_pipeline-IsBranch_example : IsBranch built out true low
build_parallel_pipeline-IsBranch_example =
    build_parallel_pipeline-IsBranch out true answers "http://minio:9000/1" both built built_ok low
      (there (here refl))
