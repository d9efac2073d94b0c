-- ===== src/Config/Validate/Exact.antt =====
-- That `Settings::validate` of crates/common/src/config.rs lets through exactly the valid settings.
use kokkeak_api.Prelude.{
  refl, true, false, inl, inr, [], ◌∷◌, Bool, ◌≡◌, List, ◌↔◌, ◌≤◌, ◌⊎◌, arith,
}
use kokkeak_api.Config.Validate.{
  Checked, validate_base_url, validate_roles, validate, validate_origins, Std, has_none, when,
  ◌then◌,
}
use kokkeak_api.Config.{
  DatabaseTopologySettings, DbRole, all_roles, Settings, is_production, slot, master, adapter_kind,
  cert_path_or_empty, catalog, order, key_path_or_empty, memory, payment, log, report, temp,
}
use kokkeak_api.Config.Validate.Valid.{
  Switched, Filled, Usable, IsValid, Hardened, validate_server-good, validate_database-good,
  then-good, validate_stores-good, validate_tls-good, validate_addr-good, Limited, SignsUrls,
  validate_rate_limit-good, validate_idempotency-good, validate_limits-good,
  signed_url_knobs_valid-good,
}
use kokkeak_api.Effect.{good}
use kokkeak_api.Text.{is_empty}

abbrev Each : DatabaseTopologySettings → List DbRole → Type 0
Each t [] = Unit {0}
Each t (r ∷ rs) = Usable (slot t r) × Each t rs

-- Two tests in a row, each with what it lets through.
also :
    {c d : Checked} {P Q : Type 0}
    → (c ≡ good tt) ↔ P
    → (d ≡ good tt) ↔ Q
    → ((c then d) ≡ good tt) ↔ (P × Q)
also {c} {d} p q = (
  λ h. let (a, b) = (then-good c d).0 h in (p.0 a, q.0 b),
  λ h. (then-good c d).1 (p.1 h.0, q.1 h.1),
)

validate_roles-Each :
    (t : DatabaseTopologySettings) (rs : List DbRole) → (validate_roles t rs ≡ good tt) ↔ Each t rs
unfolding validate_roles
validate_roles-Each t [] = (λ h. tt, λ h. refl)
validate_roles-Each t (r ∷ rs) =
    also (validate_database-good (slot t r) _ _) (validate_roles-Each t rs)

of_each : (t : DatabaseTopologySettings) → Each t all_roles → (r : DbRole) → Usable (slot t r)
of_each t (a, (b, (c, (d, (e, (f, (g, _))))))) master = a
of_each t (a, (b, (c, (d, (e, (f, (g, _))))))) catalog = b
of_each t (a, (b, (c, (d, (e, (f, (g, _))))))) order = c
of_each t (a, (b, (c, (d, (e, (f, (g, _))))))) payment = d
of_each t (a, (b, (c, (d, (e, (f, (g, _))))))) log = e
of_each t (a, (b, (c, (d, (e, (f, (g, _))))))) report = f
of_each t (a, (b, (c, (d, (e, (f, (g, _))))))) temp = g

to_each : (t : DatabaseTopologySettings) → ((r : DbRole) → Usable (slot t r)) → Each t all_roles
to_each t u = (u master, (u catalog, (u order, (u payment, (u log, (u report, (u temp, tt)))))))

when-good :
    {c : Checked} {P : Type 0} (b : Bool) → (c ≡ good tt) ↔ P → (when b c ≡ good tt) ↔ Switched b P
when-good true p = (λ h. inr (p.0 h), λ h. elim h [ inl k ↦ ground arith | inr k ↦ p.1 k ])
when-good false p = (λ h. inl refl, λ h. refl)

validate_origins-good :
    (s : Settings)
    → (validate_origins s ≡ good tt)
      ↔ Switched (is_production s.environment) (has_none s.middleware.cors_allow_origins ≡ false)
unfolding validate_origins
validate_origins-good s = (λ h. ground arith, λ h. ground arith)

validate_base_url-good :
    (s : Settings)
    → (validate_base_url s ≡ good tt)
      ↔ Switched
          (is_production s.environment)
          (Filled s.server.public_base_url ⊎ (adapter_kind s.storage ≡ memory))
unfolding validate_base_url
validate_base_url-good s = (λ h. ground arith, λ h. ground arith)

-- What each test lets through, in the order of the source.
abbrev Passed : Std → Settings → Type 0
Passed std s =
    (Filled s.server.addr × (1 ≤ s.server.workers))
    × (Usable s.database
        × (Each s.database_topology all_roles
            × (((1 ≤ s.redis.pool_size)
                  × Filled s.nats.stream_prefix
                  × Filled s.mongo.database
                  × Filled s.data_dir.path)
                × (Switched s.tls.enabled (
                      (is_empty (cert_path_or_empty s.tls) ≡ false)
                      × (is_empty (key_path_or_empty s.tls) ≡ false))
                    × (Switched (is_production s.environment)
                          (std.loopback s.server.addr ≡ good true)
                        × (Switched (is_production s.environment)
                              (has_none s.middleware.cors_allow_origins ≡ false)
                            × (Switched s.middleware.rate_limit.enabled
                                  (Limited s.middleware.rate_limit s.redis)
                                × (Switched s.middleware.idempotency.enabled (
                                      (1 ≤ s.middleware.idempotency.ttl_secs)
                                      × (1 ≤ s.middleware.idempotency.max_entries))
                                    × (((1 ≤ s.middleware.request_body_limit_bytes)
                                          × (1 ≤ s.middleware.max_concurrency))
                                        × (Switched (is_production s.environment) (
                                              Filled s.server.public_base_url
                                              ⊎ (adapter_kind s.storage ≡ memory))
                                            × Switched (is_production s.environment)
                                                (SignsUrls s.storage)))))))))))

validate-Passed : (std : Std) (s : Settings) → (validate std s ≡ good tt) ↔ Passed std s
unfolding validate
validate-Passed std s = also (validate_server-good s.server) (
    also (validate_database-good s.database _ _) (
      also (validate_roles-Each s.database_topology all_roles) (
        also (validate_stores-good s) (
          also (validate_tls-good s.tls) (
            also (when-good (is_production s.environment) (validate_addr-good std s.server.addr)) (
              also (validate_origins-good s) (
                also (validate_rate_limit-good s.middleware.rate_limit s.redis) (
                  also (validate_idempotency-good s.middleware.idempotency) (
                    also (validate_limits-good s.middleware) (
                      also (validate_base_url-good s) (
                        when-good (is_production s.environment)
                          (signed_url_knobs_valid-good std s.storage))))))))))))

-- Four conditions that hang on one switch.
switched_all :
    {P Q R S : Type 0} (b : Bool)
    → Switched b P
    → Switched b Q
    → Switched b R
    → Switched b S
    → Switched b (P × Q × R × S)
switched_all b (inl h) q r t = inl h
switched_all b (inr p) (inl h) r t = inl h
switched_all b (inr p) (inr q) (inl h) t = inl h
switched_all b (inr p) (inr q) (inr r) (inl h) = inl h
switched_all b (inr p) (inr q) (inr r) (inr t) = inr (p, q, r, t)

switched_part : {P Q : Type 0} (b : Bool) → (P → Q) → Switched b P → Switched b Q
switched_part b f (inl h) = inl h
switched_part b f (inr p) = inr (f p)

Passed-IsValid : (std : Std) (s : Settings) → Passed std s → IsValid std s
Passed-IsValid std s ((a, b), (c, (d, ((e, f, g, h), (i, (j, (k, (l, (m, ((n, o), (p, q))))))))))) =
    record {
      addr = a;
      workers = b;
      database = c;
      roles = of_each s.database_topology d;
      redis = e;
      nats = f;
      mongo = g;
      data_dir = h;
      tls = i;
      rate_limit = l;
      idempotency = m;
      body = n;
      concurrency = o;
      hardened = switched_all (is_production s.environment) j k p q;
    }

in_production :
    {Q : Type 0} (std : Std) (s : Settings)
    → IsValid std s
    → (Hardened std s → Q)
    → Switched (is_production s.environment) Q
in_production std s v f = switched_part (is_production s.environment) f v.hardened

IsValid-Passed : (std : Std) (s : Settings) → IsValid std s → Passed std s
IsValid-Passed std s v = (
  (v.addr, v.workers),
  (
    v.database,
    (
      to_each s.database_topology v.roles,
      (
        (v.redis, v.nats, v.mongo, v.data_dir),
        (
          v.tls,
          (
            in_production std s v (λ h. h.0),
            (
              in_production std s v (λ h. h.1),
              (
                v.rate_limit,
                (
                  v.idempotency,
                  (
                    (v.body, v.concurrency),
                    (in_production std s v (λ h. h.2), in_production std s v (λ h. h.3)),
                  ),
                ),
              ),
            ),
          ),
        ),
      ),
    ),
  ),
)

-- The settings that `validate` accepts are exactly the valid ones: an address, pools and time-outs of
-- at least 1 in the main database and in that of every role, names for the streams, the database and
-- the directory; certificates if TLS is on, limits of at least 1 and a Redis server where the limiter
-- needs one, and in production a loopback address, an origin, a public address for a persistent
-- storage, and a secret of at least 32 bytes with a life of 60 to 3600 seconds for signed addresses.
pub validate-IsValid : (std : Std) (s : Settings) → (validate std s ≡ good tt) ↔ IsValid std s
validate-IsValid std s = (
  λ h. Passed-IsValid std s ((validate-Passed std s).0 h),
  λ v. (validate-Passed std s).1 (IsValid-Passed std s v),
)
