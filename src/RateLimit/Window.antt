-- ===== src/RateLimit/Window.antt =====
-- A queue of failure times and its window.
use kokkeak_api.RateLimit.{evict_expired}
use kokkeak_api.Prelude.{
  suc, refl, inl, inr, [], if◌then◌else◌, ◌∷◌, ℕ, List, length, ◌≤◌, Bool-cases, ltb, ◌++◌, ◌-◌,
  ◌≡◌, arith, ◌+◌,
}
use kokkeak_api.Duration.{Duration}

-- How many of the times lie within the window at `now`.
unfoldable pub recent : Duration → ℕ → List ℕ → ℕ
recent window now [] = 0
recent window now (t ∷ ts) =
    if ltb window (now - t) then recent window now ts else suc (recent window now ts)

-- The times do not fall, from `low` on, and end by `high`.
abbrev pub IsOrdered : ℕ → List ℕ → ℕ → Type 0
IsOrdered low [] high = low ≤ high
IsOrdered low (t ∷ ts) high = (low ≤ t) × IsOrdered t ts high

IsOrdered-le : (low high : ℕ) (ts : List ℕ) → IsOrdered low ts high → low ≤ high
IsOrdered-le low high [] h = h
IsOrdered-le low high (t ∷ ts) h = omega (arith, IsOrdered-le t high ts h.1)

pub IsOrdered-weaken :
    (low low' high high' : ℕ) (ts : List ℕ)
    → IsOrdered low ts high
    → low' ≤ low
    → high ≤ high'
    → IsOrdered low' ts high'
IsOrdered-weaken low low' high high' [] h l r = omega arith
IsOrdered-weaken low low' high high' (t ∷ ts) h l r =
    (omega arith, IsOrdered-weaken t t high high' ts h.1 (omega arith) r)

pub IsOrdered-push :
    (low high t : ℕ) (ts : List ℕ)
    → IsOrdered low ts high
    → high ≤ t
    → IsOrdered low (ts ++ t ∷ []) t
IsOrdered-push low high t [] h l = (omega arith, omega arith)
IsOrdered-push low high t (u ∷ ts) h l = (h.0, IsOrdered-push u high t ts h.1 l)

module _ (window : Duration) where
  pub recent-append :
      (now : ℕ) (xs ys : List ℕ)
      → recent window now (xs ++ ys) ≡ recent window now xs + recent window now ys
  unfolding recent
  recent-append now [] ys = omega arith
  recent-append now (t ∷ ts) ys = ground (arith, recent-append now ts ys)

  pub evict-nil : (now : ℕ) → evict_expired window now [] ≡ []
  unfolding evict_expired
  evict-nil now = refl

  pub IsOrdered-evict :
      (now low high : ℕ) (ts : List ℕ)
      → IsOrdered low ts high
      → IsOrdered low (evict_expired window now ts) high
  unfolding evict_expired
  IsOrdered-evict now low high [] h = h
  IsOrdered-evict now low high (t ∷ ts) h = elim (Bool-cases (ltb window (now - t))) [
    | inl gone ↦ rw gone (
        IsOrdered-evict now low high ts (IsOrdered-weaken t low high high ts h.1 h.0 (omega arith)))
    | inr kept ↦ rw kept h
  ]

  all_recent :
      (now low high : ℕ) (ts : List ℕ)
      → IsOrdered low ts high
      → now - low ≤ window
      → recent window now ts ≡ length ts
  unfolding recent
  all_recent now low high [] h w = refl
  all_recent now low high (t ∷ ts) h w = ground (arith, all_recent now t high ts h.1)

  -- In a queue whose times do not fall, exactly the times within the window are left.
  pub length-evict :
      (now low high : ℕ) (ts : List ℕ)
      → IsOrdered low ts high
      → length (evict_expired window now ts) ≡ recent window now ts
  unfolding evict_expired recent
  length-evict now low high [] h = refl
  length-evict now low high (t ∷ ts) h =
      ground (arith, length-evict now t high ts h.1, all_recent now t high ts h.1)

  -- What has been evicted would not count later either.
  pub recent-evict :
      (now later : ℕ) (ts : List ℕ)
      → now ≤ later
      → recent window later (evict_expired window now ts) ≡ recent window later ts
  unfolding evict_expired recent
  recent-evict now later [] h = refl
  recent-evict now later (t ∷ ts) h = ground (arith, recent-evict now later ts h)
