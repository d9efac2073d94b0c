-- ===== src/Database/Topology/Owns.antt =====
-- Where the pools of crates/infra/src/db/topology.rs come from.
use kokkeak_api.Config.{DbRole, all_roles, DatabaseTopologySettings}
use kokkeak_api.Config.Databases.{for_role}
use kokkeak_api.Database.Connect.{Driver, build_pool, ping}
use kokkeak_api.Database.Topology.{
  DatabaseTopology, build, build_from, open_role, with_role, empty_topology, pool_of, try_get,
  required, same_role,
}
use kokkeak_api.Database.Topology.Roles.{configured, pool_of-put, same_role_iff}
use kokkeak_api.Effect.{good, Outcome-cases}
use kokkeak_api.Prelude.{some, inl, inr, [], ◌∷◌, ◌≡◌, List, Bool, Bool-cases, arith, ap, ◌∙◌, sym}

module _ {C P D : Type 0} (driver : Driver C P D) (settings : DatabaseTopologySettings) where
  -- The pool was built from the settings of the role.
  abbrev pub BuiltFor : DbRole → P → Type 0
  BuiltFor r p = (d : D) × ((build_pool driver (for_role settings r) d).0 ≡ good p)

  abbrev pub Owns : DatabaseTopology P → Type 0
  Owns t = (r : DbRole) (p : P) → try_get t r ≡ some p → BuiltFor r p

  open_role-BuiltFor :
      (r : DbRole) (p : P) (d : D) → (open_role driver settings r d).0 ≡ good p → BuiltFor r p
  open_role-BuiltFor r p d h = elim (Outcome-cases (build_pool driver (for_role settings r) d).0) [
    | inl (q, k) ↦
        elim (Outcome-cases (ping driver q (build_pool driver (for_role settings r) d).1).0) [
          | inl (u, g) ↦ (d, ground arith)
          | inr (e, g) ↦ ground arith
        ]
    | inr (e, k) ↦ ground arith
  ]

  with_role-Owns :
      (q : DbRole) (p : P) (t : DatabaseTopology P) → BuiltFor q p → Owns t → Owns (with_role q p t)
  unfolding try_get
  with_role-Owns q p t built owns r v h = elim (Bool-cases (same_role q r)) [
    | inl k ↦
        let same : p ≡ v = ground (arith, pool_of-put q r p t.pools) in
        let (d, made) = built in
        (
          d,
          ap (λ x. (build_pool driver (for_role settings x) d).0) (sym ((same_role_iff q r).0 k))
              ∙ made
              ∙ ap good same,
        )
    | inr k ↦ owns r v (ground (arith, pool_of-put q r p t.pools))
  ]

  build_from-Owns :
      (rs : List DbRole) (t t' : DatabaseTopology P) (d : D)
      → Owns t
      → (build_from driver settings rs t d).0 ≡ good t'
      → Owns t'
  unfolding build_from
  build_from-Owns [] t t' d owns h =
      let same : t ≡ t' = ground arith in λ r p k. owns r p (ap (λ x. try_get x r) same ∙ k)
  build_from-Owns (r ∷ rs) t t' d owns h = elim (Bool-cases (configured driver settings r)) [
    | inl k ↦ elim (Outcome-cases (open_role driver settings r d).0) [
      | inl (p, g) ↦
          build_from-Owns rs (with_role r p t) t' (open_role driver settings r d).1
            (with_role-Owns r p t (open_role-BuiltFor r p d g) owns) (ground arith)
      | inr (e, g) ↦ ground arith
    ]
    | inr k ↦ build_from-Owns rs t t' d owns (ground arith)
  ]

  required-pools :
      (require_all : Bool) (t t' : DatabaseTopology P)
      → required driver settings require_all t ≡ good t'
      → t.pools ≡ t'.pools
  required-pools require_all t t' h = ground arith

  -- Every pool of a topology that was built was built from the settings of its role.
  pub build-Owns :
      (require_all : Bool) (d : D) (t : DatabaseTopology P)
      → (build driver settings require_all d).0 ≡ good t
      → Owns t
  unfolding build try_get empty_topology pool_of
  build-Owns require_all d t h =
      elim (Outcome-cases (build_from driver settings all_roles empty_topology d).0) [
        | inl (t1, k) ↦
            let same = required-pools require_all t1 t (ground arith) in
            let owns = build_from-Owns all_roles empty_topology t1 d (λ r p g. ground arith) k in
            λ r p g. owns r p (ap (pool_of r) same ∙ g)
        | inr (e, k) ↦ ground arith
      ]
