-- ===== src/Database/Topology/Roles.antt =====
-- Which roles the topology of crates/infra/src/db/topology.rs serves.
use kokkeak_api.Config.{
  DbRole, master, catalog, order, payment, log, report, temp, DatabaseTopologySettings,
  database_is_configured, all_roles,
}
use kokkeak_api.Prelude.{
  ℕ, refl, none, some, true, false, inl, inr, [], if◌then◌else◌, ◌∷◌, Bool, List, Option, ◌≡◌, ◌||◌,
  arith, ◌&&◌, zero, suc, ◌↔◌, ◌⊎◌, sym, ◌∙◌, Bool-cases, ap,
}
use kokkeak_api.Database.Topology.{
  same_role, pool_of, build_from, put, DatabaseTopology, is_some, TopologyError, open_role,
  with_role, role_number, live_from, empty_topology, build, try_get, live_roles, required,
}
use kokkeak_api.Database.Connect.{Driver}
use kokkeak_api.Config.Databases.{for_role}
use kokkeak_api.Effect.{good, Outcome, bad}

abbrev pub is_in : DbRole → List DbRole → Bool
is_in r [] = false
is_in r (q ∷ qs) = same_role q r || is_in r qs

abbrev pub keep : (DbRole → Bool) → List DbRole → List DbRole
keep f [] = []
keep f (r ∷ rs) = if f r then r ∷ keep f rs else keep f rs

abbrev pub first : List DbRole → Option DbRole
first [] = none
first (r ∷ rs) = some r

abbrev otherwise {ℓ} : {A : Type ℓ} → Option A → Option A → Option A
otherwise (some a) o = some a
otherwise none o = o

of_number : ℕ → DbRole
of_number zero = master
of_number (suc zero) = catalog
of_number (suc (suc zero)) = order
of_number (suc (suc (suc zero))) = payment
of_number (suc (suc (suc (suc zero)))) = log
of_number (suc (suc (suc (suc (suc zero))))) = report
of_number (suc (suc (suc (suc (suc (suc n)))))) = temp

of_number-role_number : (r : DbRole) → of_number (role_number r) ≡ r
unfolding of_number role_number
of_number-role_number master = refl
of_number-role_number catalog = refl
of_number-role_number order = refl
of_number-role_number payment = refl
of_number-role_number log = refl
of_number-role_number report = refl
of_number-role_number temp = refl

pub same_role_iff : (q r : DbRole) → (same_role q r ≡ true) ↔ (q ≡ r)
unfolding same_role
same_role_iff q r = (
  λ h. sym (of_number-role_number q) ∙ ap of_number (ground arith) ∙ of_number-role_number r,
  λ e. ground arith,
)

pub pool_of-put :
    {P : Type 0} (q r : DbRole) (p : P) (ps : List (DbRole × P))
    → pool_of r (put q p ps) ≡ (if same_role q r then some p else pool_of r ps)
unfolding pool_of put
pool_of-put q r p [] = refl
pool_of-put q r p ((o, v) ∷ ps) =
    ground (arith, same_role_iff q r, same_role_iff o r, same_role_iff o q, pool_of-put q r p ps)

module _ {C P D : Type 0} (driver : Driver C P D) (settings : DatabaseTopologySettings) where
  abbrev pub configured : DbRole → Bool
  configured r = database_is_configured (for_role settings r)

  -- What the loop leaves, from a topology on.
  abbrev Built : List DbRole → DatabaseTopology P → DatabaseTopology P → Type 0
  Built rs t t' =
      ((r : DbRole)
        → is_some (pool_of r t'.pools)
          ≡ (is_some (pool_of r t.pools) || (configured r && is_in r rs)))
      × (t'.primary_role ≡ otherwise t.primary_role (first (keep configured rs)))

  Built-added :
      (r : DbRole) (rs : List DbRole) (p : P) (t t' : DatabaseTopology P)
      → configured r ≡ true
      → Built rs (with_role r p t) t'
      → Built (r ∷ rs) t t'
  Built-added r rs p t t' k (pools, prim) =
      (λ q. ground (arith, pools q, pool_of-put r q p t.pools, same_role_iff r q), ground arith)

  Built-skipped :
      (r : DbRole) (rs : List DbRole) (t t' : DatabaseTopology P)
      → configured r ≡ false
      → Built rs t t'
      → Built (r ∷ rs) t t'
  Built-skipped r rs t t' k (pools, prim) =
      (λ q. ground (arith, pools q, same_role_iff r q), ground arith)

  Built-added_round :
      (r : DbRole) (rs : List DbRole) (t t' : DatabaseTopology P) (d : D)
      → (build_from driver settings (r ∷ rs) t d).0 ≡ good t'
      → ((t : DatabaseTopology P) (d : D)
          → (build_from driver settings rs t d).0 ≡ good t'
          → Built rs t t')
      → Built (r ∷ rs) t t'
  unfolding build_from
  Built-added_round r rs t t' d h rest = by_role (Bool-cases (configured r))
    where
      by_opened :
          (o : Outcome TopologyError P)
          → configured r ≡ true
          → (open_role driver settings r d).0 ≡ o
          → Built (r ∷ rs) t t'
      by_opened (bad e) k g = ground arith
      by_opened (good p) k g =
          Built-added r rs p t t' k
            (rest (with_role r p t) (open_role driver settings r d).1 (ground arith))

      by_role : (configured r ≡ true) ⊎ (configured r ≡ false) → Built (r ∷ rs) t t'
      by_role (inl k) = by_opened _ k refl
      by_role (inr k) = Built-skipped r rs t t' k (rest t d (ground arith))

  build_from-Built :
      (rs : List DbRole) (t t' : DatabaseTopology P) (d : D)
      → (build_from driver settings rs t d).0 ≡ good t'
      → Built rs t t'
  unfolding build_from
  build_from-Built [] t t' d h = (λ r. ground arith, ground arith)
  build_from-Built (r ∷ rs) t t' d h =
      Built-added_round r rs t t' d h (λ t1 d1 k. build_from-Built rs t1 t' d1 k)

  is_in-all_roles : (r : DbRole) → is_in r all_roles ≡ true
  unfolding same_role role_number
  is_in-all_roles master = refl
  is_in-all_roles catalog = refl
  is_in-all_roles order = refl
  is_in-all_roles payment = refl
  is_in-all_roles log = refl
  is_in-all_roles report = refl
  is_in-all_roles temp = refl

  pub live_from-keep :
      (f : DbRole → Bool) (t : DatabaseTopology P) (rs : List DbRole)
      → ((r : DbRole) → is_some (pool_of r t.pools) ≡ f r)
      → live_from t rs ≡ keep f rs
  unfolding live_from
  live_from-keep f t [] h = refl
  live_from-keep f t (r ∷ rs) h = ground (arith, h r, live_from-keep f t rs h)

  -- What a topology holds: a pool for each role that is configured and for no other, and the first of
  -- these is the primary role.
  pub record Serves (t : DatabaseTopology P) : Type 0 where
    pub pools : (r : DbRole) → is_some (try_get t r) ≡ configured r
    pub live : live_roles t ≡ keep configured all_roles
    pub primary : t.primary_role ≡ first (keep configured all_roles)

  build_from-Serves :
      (t : DatabaseTopology P) (d : D)
      → (build_from driver settings all_roles empty_topology d).0 ≡ good t
      → Serves t
  unfolding empty_topology pool_of try_get live_roles
  build_from-Serves t d h =
      let (pools, prim) = build_from-Built all_roles empty_topology t d h in
      let served : (r : DbRole) → is_some (pool_of r t.pools) ≡ configured r =
        λ r. ground (arith, pools r, is_in-all_roles r) in
      record { pools = served; live = live_from-keep configured t all_roles served; primary = prim }

  required-Serves :
      (require_all : Bool) (t t' : DatabaseTopology P)
      → Serves t
      → required driver settings require_all t ≡ good t'
      → Serves t'
  unfolding live_roles live_from pool_of try_get
  required-Serves require_all t t' v h = by_pools t.pools refl
    where
      none_live : t.pools ≡ [] → keep configured all_roles ≡ []
      none_live k = sym v.live ∙ ground arith

      same : t.pools ≡ t'.pools → t'.primary_role ≡ first (keep configured all_roles) → Serves t'
      same k prim = record {
        pools = λ r. ground (arith, v.pools r);
        live = ground (arith, v.live);
        primary = prim;
      }

      by_pools : (ps : List (DbRole × P)) → t.pools ≡ ps → Serves t'
      by_pools [] k = same (ground arith) (ground (arith, none_live k))
      by_pools (x ∷ xs) k = same (ground arith) (ground (arith, v.primary))

  -- A topology that was built serves the roles that are configured, and no other, each from a pool of
  -- its own; its primary role is the first of them, in the order of the roles.
  pub build-Serves :
      (require_all : Bool) (d : D) (t : DatabaseTopology P)
      → (build driver settings require_all d).0 ≡ good t
      → Serves t
  unfolding build
  build-Serves require_all d t h =
      by_built (build_from driver settings all_roles empty_topology d).0 refl
    where
      by_built :
          (o : Outcome TopologyError (DatabaseTopology P))
          → (build_from driver settings all_roles empty_topology d).0 ≡ o
          → Serves t
      by_built (bad e) k = ground arith
      by_built (good t1) k =
          required-Serves require_all t1 t (build_from-Serves t1 d k) (ground arith)
