-- ===== src/Config/Validate.antt =====
-- `Settings::validate` of crates/common/src/config.rs, cut where the source has a blank line between
-- its tests. `loopback` stands for what `std` does with a socket address, `debug_text` for the text
-- of `{:?}` and `decimal` for that of a number.
pub mod Valid
pub mod Exact
mod Tests
use Prim.Native.String
use Prim.Native.Char.{code}
use kokkeak_api.Prelude.{
  ℕ, String, true, false, [], if◌then◌else◌, ◌∷◌, ltb, Bool, List, ◌+◌, ◌==◌, ◌||◌, ◌&&◌, not,
}
use kokkeak_api.Effect.{Outcome, good, bad}
use kokkeak_api.Config.{
  DbRole, RateLimitSettings, IdempotencySettings, ServerSettings, TlsSettings, RateLimitBackend,
  MiddlewareSettings, StorageSettings, DatabaseTopologySettings, Settings, StorageAdapterKind,
  DatabaseSettings, slot, ConfigError, is_production, all_roles, env_suffix, RedisSettings,
  is_blank, in_redis, memory, invalid, cert_path_or_empty, in_memory, s3, key_path_or_empty, local,
  adapter_kind, redis_is_configured,
}
use kokkeak_api.Text.{is_empty, len}

pub record Std : Type 0 where
  pub loopback : String → Outcome String Bool
  pub debug_text : String → String
  pub decimal : ℕ → String

abbrev pub Checked : Type 0
Checked = Outcome ConfigError (Unit {0})

infixr 5 ◌then◌
abbrev pub ◌then◌ : Checked → Checked → Checked
good tt then c = c
bad e then c = bad e

abbrev pub refuse_if : Bool → String → String → Checked
refuse_if true key message = bad (invalid key message)
refuse_if false key message = good tt

-- `if … { … }` around tests.
abbrev pub when : Bool → Checked → Checked
when true c = c
when false c = good tt

abbrev pub role_key : DbRole → String → String
role_key r field =
    String.◌++◌ "KOKKAK_DATABASE__" (String.◌++◌ (env_suffix r) (String.◌++◌ "__" field))

pub validate_database : DatabaseSettings → String → String → Checked
validate_database s pool_key timeout_key =
    refuse_if (s.pool_size == 0) pool_key "must be >= 1"
    then refuse_if (s.connect_timeout_secs == 0) timeout_key "must be >= 1"

pub validate_roles : DatabaseTopologySettings → List DbRole → Checked
validate_roles t [] = good tt
validate_roles t (r ∷ rs) =
    validate_database (slot t r) (role_key r "POOL_SIZE") (role_key r "CONNECT_TIMEOUT_SECS")
    then validate_roles t rs

pub validate_server : ServerSettings → Checked
validate_server s =
    refuse_if (is_blank s.addr) "KOKKAK_SERVER__ADDR" "must not be empty"
    then refuse_if (s.workers == 0) "KOKKAK_SERVER__WORKERS" "must be >= 1"

pub validate_stores : Settings → Checked
validate_stores s =
    refuse_if (s.redis.pool_size == 0) "KOKKAK_REDIS__POOL_SIZE" "must be >= 1"
    then refuse_if (is_blank s.nats.stream_prefix) "KOKKAK_NATS__STREAM_PREFIX" "must not be empty"
    then refuse_if (is_blank s.mongo.database) "KOKKAK_MONGO__DATABASE" "must not be empty"
    then refuse_if (is_blank s.data_dir.path) "KOKKAK_DATA_DIR__PATH" "must not be empty"

pub validate_tls : TlsSettings → Checked
validate_tls t = when t.enabled (
    refuse_if (is_empty (cert_path_or_empty t)) "KOKKAK_TLS__CERT_PATH"
      "must not be empty when KOKKAK_TLS__ENABLED=true"
    then refuse_if (is_empty (key_path_or_empty t)) "KOKKAK_TLS__KEY_PATH"
        "must not be empty when KOKKAK_TLS__ENABLED=true")

abbrev pub is_in_redis : RateLimitBackend → Bool
is_in_redis in_redis = true
is_in_redis in_memory = false

pub validate_rate_limit : RateLimitSettings → RedisSettings → Checked
validate_rate_limit l redis = when l.enabled (
    refuse_if (l.requests_per_second == 0) "KOKKAK_MIDDLEWARE__RATE_LIMIT__REQUESTS_PER_SECOND"
      "must be >= 1 when rate limiting is enabled"
    then refuse_if (l.burst_size == 0) "KOKKAK_MIDDLEWARE__RATE_LIMIT__BURST_SIZE"
        "must be >= 1 when rate limiting is enabled"
    then refuse_if (is_in_redis l.backend && not (redis_is_configured redis))
        "KOKKAK_MIDDLEWARE__RATE_LIMIT__BACKEND"
        "rate_limit.backend=redis requires KOKKAK_REDIS__URL to be configured")

pub validate_idempotency : IdempotencySettings → Checked
validate_idempotency i = when i.enabled (
    refuse_if (i.ttl_secs == 0) "KOKKAK_MIDDLEWARE__IDEMPOTENCY__TTL_SECS"
      "must be >= 1 when idempotency is enabled"
    then refuse_if (i.max_entries == 0) "KOKKAK_MIDDLEWARE__IDEMPOTENCY__MAX_ENTRIES"
        "must be >= 1 when idempotency is enabled")

pub validate_limits : MiddlewareSettings → Checked
validate_limits m =
    refuse_if (m.request_body_limit_bytes == 0) "KOKKAK_MIDDLEWARE__REQUEST_BODY_LIMIT_BYTES"
      "must be >= 1 (use usize::MAX to effectively disable)"
    then refuse_if (m.max_concurrency == 0) "KOKKAK_MIDDLEWARE__MAX_CONCURRENCY"
        "must be >= 1 (use usize::MAX to effectively disable)"

abbrev pub has_none : List String → Bool
has_none [] = true
has_none (x ∷ xs) = false

abbrev pub is_memory : StorageAdapterKind → Bool
is_memory memory = true
is_memory s3 = false
is_memory local = false

pub validate_base_url : Settings → Checked
validate_base_url s =
    refuse_if
      (is_production s.environment
        && is_blank s.server.public_base_url
        && not (is_memory (adapter_kind s.storage)))
      "KOKKAK_SERVER__PUBLIC_BASE_URL"
      "must be set when KOKKAK_ENVIRONMENT=production and a persistent storage adapter is wired (S3 or Local FS)"

pub validate_origins : Settings → Checked
validate_origins s =
    refuse_if (is_production s.environment && has_none s.middleware.cors_allow_origins)
      "KOKKAK_MIDDLEWARE__CORS_ALLOW_ORIGINS"
      "must list at least one origin when KOKKAK_ENVIRONMENT=production"

module _ (std : Std) where
  pub signed_url_knobs_valid : StorageSettings → Checked
  signed_url_knobs_valid s =
      refuse_if (is_blank s.signed_url_secret) "KOKKAK_STORAGE__SIGNED_URL_SECRET"
        "must not be empty (min 32 bytes)"
      then refuse_if (ltb (len s.signed_url_secret) 32) "KOKKAK_STORAGE__SIGNED_URL_SECRET" (
          String.◌++◌ "must be at least 32 bytes for HMAC-SHA256 (got "
            (String.◌++◌ (std.decimal (len s.signed_url_secret)) " bytes)"))
      then refuse_if (ltb s.signed_url_ttl_secs 60 || ltb 3600 s.signed_url_ttl_secs)
          "KOKKAK_STORAGE__SIGNED_URL_TTL_SECS"
          (String.◌++◌ "must be between 60 and 3600 seconds (got "
            (String.◌++◌ (std.decimal s.signed_url_ttl_secs) ")"))

  pub validate_addr : String → Checked
  validate_addr addr = elim (std.loopback addr) [
    | good true ↦ good tt
    | good false ↦ bad (
        invalid "KOKKAK_SERVER__ADDR" (
          String.◌++◌
            "must be a loopback address (127.0.0.1:<port> or [::1]:<port>) when KOKKAK_ENVIRONMENT=production (got "
            (String.◌++◌ (std.debug_text addr) ")")))
    | bad e ↦ bad (
        invalid "KOKKAK_SERVER__ADDR" (
          String.◌++◌ "invalid socket address "
            (String.◌++◌ (std.debug_text addr) (String.◌++◌ ": " e))))
  ]

  pub validate : Settings → Checked
  validate s =
      validate_server s.server
      then validate_database s.database "KOKKAK_DATABASE__POOL_SIZE"
          "KOKKAK_DATABASE__CONNECT_TIMEOUT_SECS"
      then validate_roles s.database_topology all_roles
      then validate_stores s
      then validate_tls s.tls
      then when (is_production s.environment) (validate_addr s.server.addr)
      then validate_origins s
      then validate_rate_limit s.middleware.rate_limit s.redis
      then validate_idempotency s.middleware.idempotency
      then validate_limits s.middleware
      then validate_base_url s
      then when (is_production s.environment) (signed_url_knobs_valid s.storage)
