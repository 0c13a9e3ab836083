-- ===== src/Transcoder/Uploader/Files.antt =====
-- The files of crates/infrastructure/src/transcoder/hls_uploader.rs: scans, keys and playlists.
use benri_stream.Prelude.{
  ℕ, String, Bool, true, false, Option, none, some, List, [], ◌∷◌, map, keep, ltb, eqb,
  if◌then◌else◌, concat, show_nat, ◌==◌, ◌||◌, ◌&&◌,
}
use benri_stream.Platform.{Result, ok, err}
use benri_stream.Effects.Ports.{TranscoderError, transcode_failed}
use benri_stream.Transcoder.Quality.{QualityLevel, resolution, target_bitrate_bps, name}

abbrev pub segment_extension : String
segment_extension = "ts"

abbrev pub master_filename : String
master_filename = "master.m3u8"

abbrev pub playlist_filename : String
playlist_filename = "playlist.m3u8"

abbrev pub ts_content_type : String
ts_content_type = "video/mp2t"

abbrev pub hls_content_type : String
hls_content_type = "application/vnd.apple.mpegurl"

abbrev pub segment_duration_secs : ℕ
segment_duration_secs = 4

-- A file of a tier directory, by what the code asks of its path: the name and the extension, where
-- they are UTF-8, and the name's bytes, by which the paths of one directory are ordered.
pub record PathBuf : Type 0 where
  pub file_name : Option String
  pub extension : Option String
  pub bytes : List ℕ

-- What `exists` and `read_dir` find: no directory, an error with its text, or the entries that can
-- be read.
pub data TierDir : Type 0 where
  missing : TierDir
  unreadable : String → TierDir
  entries : List PathBuf → TierDir

pub data TickMode : Type 0 where
  running : TickMode
  final_drain : TickMode

abbrev pub has_ts_extension : PathBuf → Bool
has_ts_extension path = elim path.extension [ none ↦ false | some e ↦ e == segment_extension ]

-- `<=` of texts of bytes
unfoldable pub leb_bytes : List ℕ → List ℕ → Bool
leb_bytes [] ys = true
leb_bytes (x ∷ xs) [] = false
leb_bytes (x ∷ xs) (y ∷ ys) = let rest = leb_bytes xs ys in ltb x y || (eqb x y && rest)

unfoldable pub insert_path : PathBuf → List PathBuf → List PathBuf
unfolding leb_bytes
insert_path path [] = path ∷ []
insert_path path (q ∷ qs) =
    let later = insert_path path qs in
    if leb_bytes path.bytes q.bytes then path ∷ q ∷ qs else q ∷ later

-- `segments.sort()`
unfoldable pub sort_paths : List PathBuf → List PathBuf
unfolding insert_path
sort_paths [] = []
sort_paths (path ∷ paths) = insert_path path (sort_paths paths)

unfoldable pub scan_segments : TierDir → Result TranscoderError (List PathBuf)
unfolding sort_paths
scan_segments missing = ok []
scan_segments (unreadable message) = err (transcode_failed message)
scan_segments (entries paths) = ok (sort_paths (keep has_ts_extension paths))

-- `&segments[..n - 1]` of a list that is not empty
abbrev pub all_but_last : {A : Type 0} → List A → List A
all_but_last [] = []
all_but_last (x ∷ []) = []
all_but_last (x ∷ y ∷ rest) = x ∷ all_but_last (y ∷ rest)

unfoldable pub select_uploadable_segments : List PathBuf → TickMode → List PathBuf
select_uploadable_segments segments final_drain = segments
select_uploadable_segments segments running = all_but_last segments

unfoldable pub tier_object_key : String → QualityLevel → String → String
tier_object_key output_prefix level filename =
    concat (output_prefix ∷ name level ∷ "/" ∷ filename ∷ [])

-- The lines of a segment.
abbrev pub extinf : String → String
extinf filename =
    concat ("#EXTINF:" ∷ show_nat segment_duration_secs ∷ ".000,\n" ∷ filename ∷ "\n" ∷ [])

unfoldable pub synthesize_variant_playlist : List String → Bool → String
synthesize_variant_playlist segment_filenames finalize = concat (
    "#EXTM3U\n"
    ∷ "#EXT-X-VERSION:3\n"
    ∷ concat ("#EXT-X-TARGETDURATION:" ∷ show_nat segment_duration_secs ∷ "\n" ∷ [])
    ∷ "#EXT-X-MEDIA-SEQUENCE:0\n"
    ∷ (if finalize then "" else "#EXT-X-PLAYLIST-TYPE:EVENT\n")
    ∷ concat (map extinf segment_filenames)
    ∷ (if finalize then "#EXT-X-ENDLIST\n" else "")
    ∷ [])

-- The lines of a variant, with the given codecs.
abbrev pub stream_inf : String → QualityLevel → String
stream_inf codecs level =
    let (width, height) = resolution level in
    concat (
      "#EXT-X-STREAM-INF:BANDWIDTH="
      ∷ show_nat (target_bitrate_bps level)
      ∷ ",RESOLUTION="
      ∷ show_nat width
      ∷ "x"
      ∷ show_nat height
      ∷ ",CODECS=\""
      ∷ codecs
      ∷ "\"\n"
      ∷ name level
      ∷ "/playlist.m3u8\n"
      ∷ [])

unfoldable pub generate_master_playlist : List QualityLevel → Bool → String
generate_master_playlist levels has_audio =
    let codecs = if has_audio then "avc1.640028,mp4a.40.2" else "avc1.640028" in
    concat ("#EXTM3U\n#EXT-X-VERSION:3\n" ∷ map (stream_inf codecs) levels)
