-- ===== src/Health/Ready.antt =====
-- What crates/api/src/handlers/health.rs answers.
use kokkeak_api.Effect.{good, Outcome-cases}
use kokkeak_api.Health.{HealthCheck, outcome_of, run_all, readyz, is_ready, all_ok, up, down}
use kokkeak_api.Prelude.{[], ◌∷◌, map, refl, true, inl, inr, List, ◌≡◌, ◌↔◌, ◌⊎◌, arith, Bool-cases}

module _ {H : Type 0} where
  -- Every check passes.
  abbrev pub Passes : H → List (HealthCheck H) → Type 0
  Passes h [] = Unit {0}
  Passes h (c ∷ cs) = (c.check h ≡ good tt) × Passes h cs

  all_ok-Passes :
      (h : H) (cs : List (HealthCheck H))
      → (all_ok (map (λ c. outcome_of c h) cs) ≡ true) ↔ Passes h cs
  unfolding all_ok outcome_of up down
  all_ok-Passes h [] = (λ k. tt, λ k. refl)
  all_ok-Passes h (c ∷ cs) =
      let later = all_ok-Passes h cs in
      elim (Outcome-cases (c.check h)) [
        | inl (u, k) ↦
            (λ q. (ground arith, later.0 (ground arith)), λ (q, qs). ground (arith, later.1 qs))
        | inr (e, k) ↦ (λ q. ground arith, λ (q, qs). ground arith)
      ]

  -- The server is ready, with status 200, exactly when every check that was registered passes; otherwise
  -- the status is 503.
  pub readyz-Passes :
      (registry : List (HealthCheck H)) (h : H)
      → (((readyz registry h).http_status ≡ 200) ↔ Passes h registry)
        × (((readyz registry h).http_status ≡ 200) ⊎ ((readyz registry h).http_status ≡ 503))
  unfolding readyz run_all is_ready
  readyz-Passes registry h =
      let passes = all_ok-Passes h registry in
      (
        (λ k. passes.0 (ground arith), λ p. ground (arith, passes.1 p)),
        elim (Bool-cases (is_ready (run_all registry h))) [
          | inl k ↦ inl (ground arith)
          | inr k ↦ inr (ground arith)
        ],
      )
