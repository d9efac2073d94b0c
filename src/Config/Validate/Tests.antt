-- ===== src/Config/Validate/Tests.antt =====
-- Tests of `Settings::validate` of crates/common/src/config.rs.
use kokkeak_api.Config.Sample.{sample}
use kokkeak_api.Prelude.{String, refl, true, ◌≡◌, ◌↔◌}
use kokkeak_api.Config.Validate.{
  validate, Std, role_key, validate_server, validate_database, validate_roles, validate_stores,
  validate_tls, validate_addr, validate_origins, validate_rate_limit, validate_idempotency,
  validate_limits, validate_base_url, signed_url_knobs_valid,
}
use kokkeak_api.Config.{
  is_production, env_suffix, production, master, invalid, slot, adapter_kind, redis_is_configured,
}
use kokkeak_api.Effect.{good, bad}
use kokkeak_api.Config.Validate.Valid.{IsValid}
use kokkeak_api.Config.Validate.Exact.{validate-IsValid}
use kokkeak_api.Text.{trim, len}

abbrev std : Std
std = record { loopback = λ s. good true; debug_text = λ s. s; decimal = λ n. "16" }

abbrev secret : String
secret = "0123456789abcdef0123456789abcdef"

accepted : validate std (sample production secret) ≡ good tt
unfolding validate validate_server validate_database validate_roles validate_stores validate_tls
    validate_addr validate_origins validate_rate_limit validate_idempotency validate_limits
    validate_base_url signed_url_knobs_valid slot is_production adapter_kind redis_is_configured
    trim len
accepted = refl

short_secret :
    validate std (sample production "0123456789abcdef")
    ≡ bad (
        invalid "KOKKAK_STORAGE__SIGNED_URL_SECRET"
          "must be at least 32 bytes for HMAC-SHA256 (got 16 bytes)")
unfolding validate validate_server validate_database validate_roles validate_stores validate_tls
    validate_addr validate_origins validate_rate_limit validate_idempotency validate_limits
    validate_base_url signed_url_knobs_valid slot is_production adapter_kind redis_is_configured
    trim len
short_secret = refl

-- The key that a role's error names is no key that the settings are read from.
role_key_example : role_key master "POOL_SIZE" ≡ "KOKKAK_DATABASE__MASTER_URL__POOL_SIZE"
unfolding env_suffix
role_key_example = refl

wide : len "é€" ≡ 5
unfolding len
wide = refl

validate-IsValid_example :
    (validate std (sample production secret) ≡ good tt) ↔ IsValid std (sample production secret)
validate-IsValid_example = validate-IsValid std (sample production secret)
