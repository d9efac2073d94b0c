-- ===== src/Duration.antt =====
-- Rust's `std::time::Duration`, as a number of nanoseconds.
use kokkeak_api.Prelude.{ℕ, ◌*◌, ◌/◌, ◌^◌, ◌-◌, min}

abbrev pub Duration : Type 0
Duration = ℕ

abbrev pub from_secs : ℕ → Duration
from_secs s = s * 1_000_000_000

abbrev pub from_millis : ℕ → Duration
from_millis ms = ms * 1_000_000

abbrev pub as_secs : Duration → ℕ
as_secs d = d / 1_000_000_000

abbrev pub as_millis : Duration → ℕ
as_millis d = d / 1_000_000

-- `Duration::MAX`: u64::MAX seconds and 999,999,999 nanoseconds.
abbrev pub max_duration : Duration
max_duration = 2 ^ 64 * 1_000_000_000 - 1

abbrev pub saturating_mul : Duration → ℕ → Duration
saturating_mul d k = min (d * k) max_duration
