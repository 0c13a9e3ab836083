-- ===== src/Platform.antt =====
-- What the program calls and does not define: the crates uuid and serde_json, and the results of
-- fallible calls. A `Platform` is a parameter of every definition that uses one of them.
use benri_stream.Prelude.{ℕ, String, Option}

-- A UUID is its 128 bits, read as a number: this is the order in which Postgres compares them.
abbrev pub Uuid : Type 0
Uuid = ℕ

-- Rust's `Result`, the error type first.
pub data Result (E A : Type 0) : Type 0 where
  ok : A → Result E A
  err : E → Result E A

abbrev pub map_err : {E F A : Type 0} → (E → F) → Result E A → Result F A
map_err f (ok a) = ok a
map_err f (err e) = err (f e)

abbrev pub ok_or : {E A : Type 0} → Option A → E → Result E A
ok_or Option.none e = err e
ok_or (Option.some a) e = ok a

-- A JSON value is represented by its text. The metadata structs hold a video id, or nothing.
pub record Platform : Type 0 where
  pub show_uuid : Uuid → String
  pub parse_uuid : String → Option Uuid
  -- `{:?}` of a `Duration`
  pub show_duration : ℕ → String
  pub video_id_to_value : Uuid → Result String String
  pub video_id_from_value : String → Result String Uuid
  pub unit_to_value : Result String String
  pub unit_from_value : String → Result String (Unit {0})
