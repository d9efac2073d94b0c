-- ===== src/Database/Topology/Opens.antt =====
-- When the topology of crates/infra/src/db/topology.rs is built.
use kokkeak_api.Config.{DbRole, all_roles, DatabaseTopologySettings}
use kokkeak_api.Database.Topology.{
  DatabaseTopology, build, build_from, open_role, with_role, empty_topology, no_pools,
}
use kokkeak_api.Database.Topology.Roles.{configured}
use kokkeak_api.Database.Connect.{Driver}
use kokkeak_api.Prelude.{
  refl, none, true, false, inl, inr, [], ◌∷◌, ◌≡◌, List, Bool-cases, ◌⊎◌, arith,
}
use kokkeak_api.Effect.{good}

module _ {C P D : Type 0} (driver : Driver C P D) where
  -- Every role that is configured has a pool that answers.
  abbrev pub Opens : DatabaseTopologySettings → Type 0
  Opens settings =
      (r : DbRole) (d : D)
      → configured driver settings r ≡ true
      → (p : P) × ((open_role driver settings r d).0 ≡ good p)

  build_from-good :
      (settings : DatabaseTopologySettings) (rs : List DbRole) (t : DatabaseTopology P) (d : D)
      → Opens settings
      → (t' : DatabaseTopology P) × ((build_from driver settings rs t d).0 ≡ good t')
  unfolding build_from
  build_from-good settings [] t d opens = (t, refl)
  build_from-good settings (r ∷ rs) t d opens = elim (Bool-cases (configured driver settings r)) [
    | inl k ↦
        let (p, opened) = opens r d k in
        let (t', done) =
          build_from-good settings rs (with_role r p t) (open_role driver settings r d).1 opens in
        (t', ground arith)
    | inr k ↦ let (t', done) = build_from-good settings rs t d opens in (t', ground arith)
  ]

  pub build-good :
      (settings : DatabaseTopologySettings) (d : D)
      → Opens settings
      → (t : DatabaseTopology P) × ((build driver settings false d).0 ≡ good t)
  unfolding build
  build-good settings d opens =
      let (t, done) = build_from-good settings all_roles empty_topology d opens in
      by_pools t done (Bool-cases (no_pools t.pools))
    where
      by_pools :
          (t : DatabaseTopology P)
          → (build_from driver settings all_roles empty_topology d).0 ≡ good t
          → (no_pools t.pools ≡ true) ⊎ (no_pools t.pools ≡ false)
          → (t' : DatabaseTopology P) × ((build driver settings false d).0 ≡ good t')
      by_pools t done (inl k) = (record { pools = t.pools; primary_role = none }, ground arith)
      by_pools t done (inr k) = (t, ground arith)
