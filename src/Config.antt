-- ===== src/Config.antt =====
-- The settings: the records of crates/common/src/config.rs, less the fields that only serve to log,
-- to sign tokens and to scale images, which `validate` and the databases do not read. A `u32`, `u64`
-- or `usize` that is only compared is a number. Of the errors, the one of the crate figment is left out.
pub mod Validate
pub mod Databases
pub mod Sample
pub mod EnvFile
use kokkeak_api.Text.{trim, is_empty}
use kokkeak_api.Prelude.{
  ℕ, String, Bool, true, false, List, [], none, some, if◌then◌else◌, ◌∷◌, not, Option, ◌&&◌, str_eq,
}

pub data DbRole : Type 0 where
  master catalog order payment log report temp : DbRole

abbrev pub all_roles : List DbRole
all_roles = master ∷ catalog ∷ order ∷ payment ∷ log ∷ report ∷ temp ∷ []

pub env_suffix : DbRole → String
env_suffix master = "MASTER_URL"
env_suffix catalog = "CATALOG_URL"
env_suffix order = "ORDER_URL"
env_suffix payment = "PAYMENT_URL"
env_suffix log = "LOG_URL"
env_suffix report = "REPORT_URL"
env_suffix temp = "TEMP_URL"

pub record ServerSettings : Type 0 where
  pub addr : String
  pub workers : ℕ
  pub trust_forwarded_for : Bool
  pub public_base_url : String

pub record DatabaseSettings : Type 0 where
  pub sqlserver_url : String
  pub pool_size : ℕ
  pub connect_timeout_secs : ℕ
  pub migrations_dir : String

pub record DatabaseTopologySettings : Type 0 where
  pub catch_all : DatabaseSettings
  pub of_master : DatabaseSettings
  pub of_catalog : DatabaseSettings
  pub of_order : DatabaseSettings
  pub of_payment : DatabaseSettings
  pub of_log : DatabaseSettings
  pub of_report : DatabaseSettings
  pub of_temp : DatabaseSettings

pub record RedisSettings : Type 0 where
  pub url : String
  pub pool_size : ℕ
  pub namespace : String

pub record NatsSettings : Type 0 where
  pub url : String
  pub stream_prefix : String

pub record MongoSettings : Type 0 where
  pub url : String
  pub database : String

pub record DataDirSettings : Type 0 where
  pub path : String
  pub reset_on_startup : Bool

pub record StorageSettings : Type 0 where
  pub s3_bucket : String
  pub s3_endpoint : String
  pub s3_region : String
  pub s3_access_key : String
  pub s3_secret_key : String
  pub s3_path_style : Bool
  pub local_path : String
  pub signed_url_secret : String
  pub signed_url_ttl_secs : ℕ

pub data StorageAdapterKind : Type 0 where
  s3 local memory : StorageAdapterKind

pub data Environment : Type 0 where
  development production : Environment

pub record TlsSettings : Type 0 where
  pub enabled : Bool
  pub cert_path : Option String
  pub key_path : Option String
  pub redirect_from_port : ℕ
  pub hsts_max_age_secs : ℕ
  pub auto_reload : Bool

pub record IdempotencySettings : Type 0 where
  pub enabled : Bool
  pub ttl_secs : ℕ
  pub max_entries : ℕ

pub data RateLimitBackend : Type 0 where
  in_memory in_redis : RateLimitBackend

pub record RateLimitSettings : Type 0 where
  pub enabled : Bool
  pub backend : RateLimitBackend
  pub requests_per_second : ℕ
  pub burst_size : ℕ

pub record MiddlewareSettings : Type 0 where
  pub cors_allow_origins : List String
  pub request_timeout_secs : ℕ
  pub compression_enabled : Bool
  pub rate_limit : RateLimitSettings
  pub request_body_limit_bytes : ℕ
  pub max_concurrency : ℕ
  pub idempotency : IdempotencySettings

pub record Settings : Type 0 where
  pub server : ServerSettings
  pub database : DatabaseSettings
  pub database_topology : DatabaseTopologySettings
  pub redis : RedisSettings
  pub nats : NatsSettings
  pub mongo : MongoSettings
  pub data_dir : DataDirSettings
  pub environment : Environment
  pub tls : TlsSettings
  pub middleware : MiddlewareSettings
  pub storage : StorageSettings

pub data ConfigError : Type 0 where
  invalid : String → String → ConfigError

abbrev pub is_blank : String → Bool
is_blank s = is_empty (trim s)

unfoldable pub database_is_configured : DatabaseSettings → Bool
database_is_configured s = not (is_blank s.sqlserver_url) && not (str_eq s.sqlserver_url "disabled")

pub redis_is_configured : RedisSettings → Bool
redis_is_configured s = not (is_blank s.url) && not (str_eq s.url "redis://disabled")

pub is_production : Environment → Bool
is_production production = true
is_production development = false

unfoldable pub slot : DatabaseTopologySettings → DbRole → DatabaseSettings
slot t master = t.of_master
slot t catalog = t.of_catalog
slot t order = t.of_order
slot t payment = t.of_payment
slot t log = t.of_log
slot t report = t.of_report
slot t temp = t.of_temp

pub cert_path_or_empty : TlsSettings → String
cert_path_or_empty t = elim t.cert_path [ none ↦ "" | some p ↦ trim p ]

pub key_path_or_empty : TlsSettings → String
key_path_or_empty t = elim t.key_path [ none ↦ "" | some p ↦ trim p ]

pub adapter_kind : StorageSettings → StorageAdapterKind
adapter_kind s =
    if not (is_blank s.s3_bucket) then s3 else if not (is_blank s.local_path) then local else memory
