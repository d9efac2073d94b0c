-- ===== src/Config/Sample.antt =====
-- Settings that the tests of crates/common/src/config.rs use.
use kokkeak_api.Prelude.{ℕ, String, none, true, false, [], ◌∷◌}
use kokkeak_api.Config.{Environment, DatabaseSettings, Settings, in_redis}

abbrev pub db : String → ℕ → DatabaseSettings
db url size = record {
  sqlserver_url = url;
  pool_size = size;
  connect_timeout_secs = 5;
  migrations_dir = "migrations";
}

abbrev pub sample : Environment → String → Settings
sample e secret = record {
  server = record {
    addr = "127.0.0.1:3000";
    workers = 4;
    trust_forwarded_for = true;
    public_base_url = "https://api";
  };
  database = db "Server=main" 50;
  database_topology = record {
    catch_all = db "" 20;
    of_master = db "Server=m" 20;
    of_catalog = db "" 7;
    of_order = db "" 20;
    of_payment = db "disabled" 20;
    of_log = db " " 20;
    of_report = db "" 20;
    of_temp = db "" 20;
  };
  redis = record { url = "redis://r"; pool_size = 16; namespace = "k" };
  nats = record { url = "nats://disabled"; stream_prefix = "kokkak" };
  mongo = record { url = "mongodb://disabled"; database = "kokkak" };
  data_dir = record { path = "./data"; reset_on_startup = false };
  environment = e;
  tls = record {
    enabled = false;
    cert_path = none;
    key_path = none;
    redirect_from_port = 0;
    hsts_max_age_secs = 0;
    auto_reload = false;
  };
  middleware = record {
    cors_allow_origins = "https://a" ∷ [];
    request_timeout_secs = 30;
    compression_enabled = true;
    rate_limit = record {
      enabled = true;
      backend = in_redis;
      requests_per_second = 100;
      burst_size = 200;
    };
    request_body_limit_bytes = 1024;
    max_concurrency = 512;
    idempotency = record { enabled = true; ttl_secs = 86400; max_entries = 10000 };
  };
  storage = record {
    s3_bucket = "";
    s3_endpoint = "";
    s3_region = "us-east-1";
    s3_access_key = "";
    s3_secret_key = "";
    s3_path_style = false;
    local_path = "./files";
    signed_url_secret = secret;
    signed_url_ttl_secs = 600;
  };
}
