-- ===== src/Config/Validate/Valid.antt =====
-- What `Settings::validate` of crates/common/src/config.rs lets through, part by part.
use kokkeak_api.Prelude.{String, refl, true, false, Bool, ◌≡◌, ◌≤◌, ◌⊎◌, ◌↔◌, arith}
use kokkeak_api.Config.Validate.{
  validate_limits, validate_server, signed_url_knobs_valid, validate_rate_limit, validate_database,
  validate_idempotency, Std, validate_addr, Checked, validate_stores, validate_tls, ◌then◌, len,
  has_none,
}
use kokkeak_api.Config.{
  is_blank, RateLimitSettings, StorageSettings, DatabaseSettings, Settings, RedisSettings, DbRole,
  in_memory, slot, redis_is_configured, adapter_kind, cert_path_or_empty, memory, key_path_or_empty,
  is_production, IdempotencySettings, TlsSettings, MiddlewareSettings, ServerSettings,
}
use kokkeak_api.Effect.{good, bad}
use kokkeak_api.Text.{is_empty}

abbrev pub Filled : String → Type 0
Filled s = is_blank s ≡ false

abbrev pub Usable : DatabaseSettings → Type 0
Usable s = (1 ≤ s.pool_size) × (1 ≤ s.connect_timeout_secs)

-- What holds of a part when it is switched on.
abbrev pub Switched : Bool → Type 0 → Type 0
Switched b P = (b ≡ false) ⊎ P

abbrev pub Limited : RateLimitSettings → RedisSettings → Type 0
Limited l redis =
    (1 ≤ l.requests_per_second)
    × (1 ≤ l.burst_size)
    × ((l.backend ≡ in_memory) ⊎ (redis_is_configured redis ≡ true))

abbrev pub SignsUrls : StorageSettings → Type 0
SignsUrls s =
    Filled s.signed_url_secret
    × (32 ≤ len s.signed_url_secret)
    × (60 ≤ s.signed_url_ttl_secs)
    × (s.signed_url_ttl_secs ≤ 3600)

-- What production asks for.
abbrev pub Hardened : Std → Settings → Type 0
Hardened std s =
    (std.loopback s.server.addr ≡ good true)
    × (has_none s.middleware.cors_allow_origins ≡ false)
    × (Filled s.server.public_base_url ⊎ (adapter_kind s.storage ≡ memory))
    × SignsUrls s.storage

pub record IsValid (std : Std) (s : Settings) : Type 0 where
  pub addr : Filled s.server.addr
  pub workers : 1 ≤ s.server.workers
  pub database : Usable s.database
  pub roles : (r : DbRole) → Usable (slot s.database_topology r)
  pub redis : 1 ≤ s.redis.pool_size
  pub nats : Filled s.nats.stream_prefix
  pub mongo : Filled s.mongo.database
  pub data_dir : Filled s.data_dir.path
  pub tls :
      Switched s.tls.enabled (
        (is_empty (cert_path_or_empty s.tls) ≡ false)
        × (is_empty (key_path_or_empty s.tls) ≡ false))
  pub rate_limit :
      Switched s.middleware.rate_limit.enabled (Limited s.middleware.rate_limit s.redis)
  pub idempotency :
      Switched s.middleware.idempotency.enabled
        ((1 ≤ s.middleware.idempotency.ttl_secs) × (1 ≤ s.middleware.idempotency.max_entries))
  pub body : 1 ≤ s.middleware.request_body_limit_bytes
  pub concurrency : 1 ≤ s.middleware.max_concurrency
  pub hardened : Switched (is_production s.environment) (Hardened std s)

pub then-good : (c d : Checked) → ((c then d) ≡ good tt) ↔ ((c ≡ good tt) × (d ≡ good tt))
then-good (good tt) d = (λ h. (refl, h), λ h. h.1)
then-good (bad e) d = (λ h. ground arith, λ h. ground arith)

pub validate_server-good :
    (s : ServerSettings) → (validate_server s ≡ good tt) ↔ (Filled s.addr × (1 ≤ s.workers))
unfolding validate_server
validate_server-good s = (λ h. ground arith, λ h. ground arith)

pub validate_database-good :
    (s : DatabaseSettings) (k l : String) → (validate_database s k l ≡ good tt) ↔ Usable s
unfolding validate_database
validate_database-good s k l = (λ h. ground arith, λ h. ground arith)

pub validate_stores-good :
    (s : Settings)
    → (validate_stores s ≡ good tt) ↔ (
        (1 ≤ s.redis.pool_size)
        × Filled s.nats.stream_prefix
        × Filled s.mongo.database
        × Filled s.data_dir.path)
unfolding validate_stores
validate_stores-good s = (λ h. ground arith, λ h. ground arith)

pub validate_tls-good :
    (t : TlsSettings)
    → (validate_tls t ≡ good tt)
      ↔ Switched t.enabled
          ((is_empty (cert_path_or_empty t) ≡ false) × (is_empty (key_path_or_empty t) ≡ false))
unfolding validate_tls
validate_tls-good t = (λ h. ground arith, λ h. ground arith)

pub validate_rate_limit-good :
    (l : RateLimitSettings) (redis : RedisSettings)
    → (validate_rate_limit l redis ≡ good tt) ↔ Switched l.enabled (Limited l redis)
unfolding validate_rate_limit
validate_rate_limit-good l redis = (λ h. ground arith, λ h. ground arith)

pub validate_idempotency-good :
    (i : IdempotencySettings)
    → (validate_idempotency i ≡ good tt)
      ↔ Switched i.enabled ((1 ≤ i.ttl_secs) × (1 ≤ i.max_entries))
unfolding validate_idempotency
validate_idempotency-good i = (λ h. ground arith, λ h. ground arith)

pub validate_limits-good :
    (m : MiddlewareSettings)
    → (validate_limits m ≡ good tt) ↔ ((1 ≤ m.request_body_limit_bytes) × (1 ≤ m.max_concurrency))
unfolding validate_limits
validate_limits-good m = (λ h. ground arith, λ h. ground arith)

pub signed_url_knobs_valid-good :
    (std : Std) (s : StorageSettings) → (signed_url_knobs_valid std s ≡ good tt) ↔ SignsUrls s
unfolding signed_url_knobs_valid
signed_url_knobs_valid-good std s = (λ h. ground arith, λ h. ground arith)

pub validate_addr-good :
    (std : Std) (addr : String)
    → (validate_addr std addr ≡ good tt) ↔ (std.loopback addr ≡ good true)
unfolding validate_addr
validate_addr-good std addr = (λ h. ground arith, λ h. ground arith)
