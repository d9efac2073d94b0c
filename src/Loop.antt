-- ===== src/Loop.antt =====
-- A loop that goes on from cursor to cursor until a round ends it, on fuel: the shape of the loops that
-- ask a Redis server with `SCAN` in crates/infra/src.
use kokkeak_api.Prelude.{ℕ, zero, suc, none, some, refl, inl, inr, ◌⊎◌, Option, ◌≡◌, ◌<◌, arith}

module _ {X Y : Type 0} (round : ℕ → X → Y ⊎ (ℕ × X)) where
  -- `none` when the fuel is used up.
  unfoldable pub scan_loop : ℕ → ℕ → X → Option Y
  scan_loop zero cursor x = none
  scan_loop (suc fuel) cursor x = elim (round cursor x) [
    | inl y ↦ some y
    | inr (next, x') ↦ scan_loop fuel next x'
  ]

  -- It ends when each cursor that it goes on to ranks below the one before.
  pub scan_loop-ends :
      (rank : ℕ → ℕ) (fuel cursor : ℕ) (x : X)
      → ((c : ℕ) (v : X) (next : ℕ) (v' : X) → round c v ≡ inr (next, v') → rank next < rank c)
      → rank cursor < fuel
      → (y : Y) × (scan_loop fuel cursor x ≡ some y)
  unfolding scan_loop
  scan_loop-ends rank zero cursor x falls enough = ground arith
  scan_loop-ends rank (suc fuel) cursor x falls enough = elim (outcome (round cursor x)) [
    | inl (y, k) ↦ (y, ground arith)
    | inr (next, x', k) ↦
        let lower : rank next < rank cursor = falls cursor x next x' k in
        let (y, ends) = scan_loop-ends rank fuel next x' falls (omega arith) in (y, ground arith)
  ]
    where
      outcome :
          (o : Y ⊎ (ℕ × X))
          → ((y : Y) × (o ≡ inl y)) ⊎ ((next : ℕ) × (x' : X) × (o ≡ inr (next, x')))
      outcome (inl y) = inl (y, refl)
      outcome (inr (next, x')) = inr (next, x', refl)
