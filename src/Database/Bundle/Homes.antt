-- ===== src/Database/Bundle/Homes.antt =====
-- Where the repositories of crates/api/src/repo_factory.rs work.
use mathlib.Core.Option.{some-injective}
use mathlib.Core.Path.{subst}
use kokkeak_api.Config.{
  DbRole, master, catalog, order, payment, all_roles, DatabaseTopologySettings,
}
use kokkeak_api.Database.Topology.{
  DatabaseTopology, TopologyError, try_get, no_pools, is_some, pool_of,
}
use kokkeak_api.Database.Topology.Roles.{Serves, keep, first, configured}
use kokkeak_api.Database.Connect.{Driver}
use kokkeak_api.Database.Bundle.{
  RepoBundle, started, topo_pool, bundle_of, on_primary, with_topology,
}
use kokkeak_api.Prelude.{
  String, refl, none, some, inl, inr, ◌≡◌, Bool-cases, ◌⊎◌, Option, arith, true, false, [], ◌∷◌,
  sym, List, ◌∙◌,
}
use kokkeak_api.Effect.{good}

-- A repository's pool is that of its role, and that of the primary role where its role has none.
abbrev pub Home : {P : Type 0} → DatabaseTopology P → DbRole → P → Type 0
Home t r x =
    (try_get t r ≡ some x)
    ⊎ ((try_get t r ≡ none) × (q : DbRole) × (t.primary_role ≡ some q) × (try_get t q ≡ some x))

-- The roles that the repositories stand under.
pub record IsPlaced {P : Type 0} (t : DatabaseTopology P) (b : RepoBundle P) : Type 0 where
  pub users : Home t master b.users
  pub services : Home t catalog b.services
  pub orders : Home t order b.orders
  pub chat : Home t master b.chat
  pub payments : Home t payment b.payments
  pub user_roles : Home t master b.user_roles
  pub permission_users : Home t master b.permission_users
  pub translation : Home t master b.translation
  pub dropdown : Home t master b.master
  pub jobs : Home t master b.category_job_main
  pub services_main : Home t master b.category_job_service_main
  pub services_sub : Home t master b.category_job_service_sub
  pub fees : Home t master b.category_job_service_sub_fee
  pub warranties : Home t master b.category_job_service_sub_warranty
  pub admin_orders : Home t order b.admin_order_service

topo_pool-Home :
    {P : Type 0} (t : DatabaseTopology P) (r q : DbRole) (p : P)
    → t.primary_role ≡ some q
    → try_get t q ≡ some p
    → Home t r (topo_pool t r p)
unfolding topo_pool
topo_pool-Home {P} t r q p prim has = by_role (try_get t r) refl
  where
    by_role : (o : Option P) → try_get t r ≡ o → Home t r (topo_pool t r p)
    by_role none k = inr (k, q, prim, ground arith)
    by_role (some x) k = inl (ground arith)

-- A topology that has a pool is not empty.
pooled :
    {P : Type 0} (t : DatabaseTopology P) (q : DbRole) (p : P)
    → try_get t q ≡ some p
    → no_pools t.pools ≡ false
unfolding try_get pool_of
pooled {P} t q p h = by_pools t.pools refl
  where
    by_pools : (ps : List (DbRole × P)) → t.pools ≡ ps → no_pools t.pools ≡ false
    by_pools [] k = ground arith
    by_pools (x ∷ xs) k = ground arith

module _ {C P D : Type 0} (driver : Driver C P D) (settings : DatabaseTopologySettings) where
  -- The primary role is the role of the main data, if that is configured.
  primary-Home :
      (t : DatabaseTopology P) (q : DbRole) (p : P)
      → Serves driver settings t
      → t.primary_role ≡ some q
      → try_get t q ≡ some p
      → Home t master p
  primary-Home t q p v prim has = elim (Bool-cases (configured driver settings master)) [
    | inl k ↦
        let at_master : some q ≡ some master = sym prim ∙ v.primary ∙ ground arith in
        inl (subst (λ r. try_get t r ≡ some p) (some-injective q master at_master) has)
    | inr k ↦ inr (unserved (try_get t master) refl (v.pools master ∙ k), q, prim, has)
  ]
    where
      unserved :
          (o : Option P)
          → try_get t master ≡ o
          → is_some (try_get t master) ≡ false
          → try_get t master ≡ none
      unserved none k h = k
      unserved (some x) k h = ground arith

  bundle_of-IsPlaced :
      (t : DatabaseTopology P) (q : DbRole) (p : P)
      → Serves driver settings t
      → t.primary_role ≡ some q
      → try_get t q ≡ some p
      → IsPlaced t (bundle_of t p)
  unfolding bundle_of
  bundle_of-IsPlaced t q p v prim has =
      let at : (r : DbRole) → Home t r (topo_pool t r p) = λ r. topo_pool-Home t r q p prim has in
      let on_main : Home t master p = primary-Home t q p v prim has in
      record {
        users = at master;
        services = at catalog;
        orders = at order;
        chat = at master;
        payments = at payment;
        user_roles = at master;
        permission_users = at master;
        translation = on_main;
        dropdown = on_main;
        jobs = at master;
        services_main = at master;
        services_sub = at master;
        fees = at master;
        warranties = at master;
        admin_orders = at order;
      }

  -- A topology that serves some role starts the bundle, on the pools of its roles.
  pub with_topology-IsPlaced :
      (show_error : TopologyError → String) (t : DatabaseTopology P) (q : DbRole)
      → Serves driver settings t
      → first (keep (configured driver settings) all_roles) ≡ some q
      → configured driver settings q ≡ true
      → (b : RepoBundle P) × (with_topology show_error (good t) ≡ started b)
        × (b.topology ≡ some t)
        × IsPlaced t b
  unfolding with_topology on_primary bundle_of
  with_topology-IsPlaced show_error t q v starts is_on = by_pool (try_get t q) refl
    where
      prim : t.primary_role ≡ some q
      prim = v.primary ∙ starts

      by_pool :
          (o : Option P)
          → try_get t q ≡ o
          → (b : RepoBundle P) × (with_topology show_error (good t) ≡ started b)
            × (b.topology ≡ some t)
            × IsPlaced t b
      by_pool none k = ground (arith, v.pools q)
      by_pool (some p) k =
          (bundle_of t p, ground (arith, pooled t q p k), refl, bundle_of-IsPlaced t q p v prim k)
