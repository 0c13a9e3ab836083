-- ===== src/Config.antt =====
-- crates/infrastructure/src/config.rs, and the S3 clients that
-- crates/infrastructure/src/bootstrap.rs builds from it.
use benri_stream.Prelude.{ℕ, String, Bool, true, false, Option, none, some}

pub record AppConfig : Type 0 where
  pub database_url : String
  pub base_url : String
  pub s3_upload_bucket : String
  pub s3_output_bucket : String
  pub s3_region : String
  pub s3_endpoint : Option String
  pub s3_public_endpoint : Option String
  pub cdn_base_url : String
  pub redis_url : String
  pub listen_addr : String
  pub quality_tiers : String
  pub worker_concurrency : ℕ

-- `unwrap_or`
abbrev pub unwrap_or : {A : Type 0} → A → Option A → A
unwrap_or default none = default
unwrap_or default (some x) = x

-- `env` is `std::env::var(..).ok()` and `parse_usize` is `str::parse::<usize>` with its error dropped.
module _ (env : String → Option String) where
  abbrev pub env_or : String → String → String
  env_or key default = unwrap_or default (env key)

  unfoldable pub from_env : (String → Option ℕ) → AppConfig
  from_env parse_usize = record {
    database_url = env_or "DATABASE_URL" "postgres://localhost:5432/benri_stream";
    base_url = env_or "BASE_URL" "http://localhost:3000";
    s3_upload_bucket = env_or "S3_UPLOAD_BUCKET" "benri-uploads";
    s3_output_bucket = env_or "S3_OUTPUT_BUCKET" "benri-stream";
    s3_region = env_or "S3_REGION" "us-east-1";
    s3_endpoint = env "S3_ENDPOINT";
    s3_public_endpoint = env "S3_PUBLIC_ENDPOINT";
    cdn_base_url = env_or "CDN_BASE_URL" "http://localhost:8888";
    redis_url = env_or "REDIS_URL" "redis://localhost:6379";
    listen_addr = env_or "LISTEN_ADDR" "0.0.0.0:8080";
    quality_tiers = env_or "QUALITY_TIERS" "low,medium,high";
    worker_concurrency = unwrap_or 1 (parse_usize (env_or "WORKER_CONCURRENCY" "1"));
  }

-- What `build_client` sets of a client; without an endpoint the library has its own.
pub record S3Settings : Type 0 where
  pub region : String
  pub endpoint_url : Option String
  pub force_path_style : Bool

abbrev is_some : Option String → Bool
is_some none = false
is_some (some _) = true

-- `a.or(b)`
abbrev or : Option String → Option String → Option String
or none b = b
or (some a) b = some a

unfoldable pub build_client : String → Option String → S3Settings
build_client region endpoint = record {
  region = region;
  endpoint_url = endpoint;
  force_path_style = is_some endpoint;
}

unfoldable pub create_s3_client : AppConfig → S3Settings
unfolding build_client
create_s3_client config = build_client config.s3_region config.s3_endpoint

unfoldable pub create_s3_presign_client : AppConfig → S3Settings
unfolding build_client
create_s3_presign_client config =
    build_client config.s3_region (or config.s3_public_endpoint config.s3_endpoint)
