-- ===== src/Cache/Coherence.antt =====
-- The layered cache never makes up a value: what its tiers hold is among the values that may be read.
use kokkeak_api.Cache.Types.{Bytes, Answer, good, bad, Moka, Redis, MokaLaws, CacheError}
use kokkeak_api.Cache.{
  LayeredCache, get, set, delete, invalidate, heard, fill, l2_get, l2_set, l2_delete,
}
use kokkeak_api.Cache.Remote.{
  l2_holds, RemoteLaws, l2_get_keeps, l2_get-none, l2_get_sound, l2_invalidate_keeps, l2_set_same,
  l2_set_done, l2_delete_keeps, l2_set_other, l2_delete_done,
}
use kokkeak_api.Prelude.{
  ℕ, String, Option, none, some, ◌≡◌, ◌≢◌, arith, eq_iff, Bool-cases, inl, inr, ◌⊎◌, str_eq,
  eq_refl, refl, Bool, sym, ◌∙◌,
}

-- The values that may be read at a key.
abbrev pub May : Type 1
May = String → Bytes → Type 0

-- After a write, after a write that may have been lost, after a removal.
abbrev pub put_may : String → Bytes → May → May
put_may k u may k' v = ((k' ≡ k) × (v ≡ u)) ⊎ ((k' ≢ k) × may k' v)

abbrev pub add_may : String → Bytes → May → May
add_may k u may k' v = ((k' ≡ k) × (v ≡ u)) ⊎ may k' v

abbrev pub drop_may : String → May → May
drop_may k may k' v = (k' ≢ k) × may k' v

pub none-some : {v : Bytes} → none ≡ some v → ⊥
none-some h = ground arith

pub key_cases : (k' k : String) → (k' ≡ k) ⊎ (k' ≢ k)
key_cases k' k = elim (Bool-cases (str_eq k' k)) [
  | inl e ↦ inl ((eq_iff k' k).0 e)
  | inr e ↦ inr (λ same. absurd (ground (arith, eq_refl k)))
]

module _ {M R : Type 0} (moka : Moka M) (redis : Option (Redis R)) (namespace : String) where
  pub record Coherent (may : May) (c : LayeredCache M R) : Type 0 where
    pub l1_ok : (k : String) (v : Bytes) → moka.peek k c.l1 ≡ some v → may k v
    pub l2_ok : (k : String) (v : Bytes) → l2_holds moka namespace redis k c.l2 ≡ some v → may k v

  get_hit :
      (k : String) (v : Bytes) (c : LayeredCache M R)
      → (moka.get k c.l1).0 ≡ some v
      → get moka redis namespace k c ≡ (good (some v), record c { l1 = (moka.get k c.l1).1 })
  unfolding get
  get_hit k v c h = ground arith

  get_second :
      (k : String) (c : LayeredCache M R)
      → (moka.get k c.l1).0 ≡ none
      → get moka redis namespace k c
        ≡ fill moka redis namespace k
            (moka.get k c.l1).1
            c.l2
            c.inflight
            (l2_get moka redis namespace k c.l2)
  unfolding get
  get_second k c h = ground arith

  set_put :
      (k : String) (u : Bytes) (ttl : ℕ) (x : Unit {0}) (c : LayeredCache M R)
      → (l2_set moka redis namespace k u ttl c.l2).0 ≡ good x
      → set moka redis namespace k u ttl c ≡ (
        good tt,
        record c { l1 = moka.insert k u c.l1; l2 = (l2_set moka redis namespace k u ttl c.l2).1 },
      )
  unfolding set
  set_put k u ttl x c h = ground arith

  set_failed :
      (k : String) (u : Bytes) (ttl : ℕ) (e : CacheError) (c : LayeredCache M R)
      → (l2_set moka redis namespace k u ttl c.l2).0 ≡ bad e
      → set moka redis namespace k u ttl c
        ≡ (bad e, record c { l2 = (l2_set moka redis namespace k u ttl c.l2).1 })
  unfolding set
  set_failed k u ttl e c h = ground arith

  -- What a lookup leaves, and what its answer says.
  pub record IsGot (k : String) (may : May) (answer : Answer (Option Bytes)) (c : LayeredCache M R)
      : Type 0 where
    pub coherent : Coherent may c
    pub sound : (v : Bytes) → answer ≡ good (some v) → may k v
    pub missed : answer ≡ good none → l2_holds moka namespace redis k c.l2 ≡ none

  module _ (mlaws : MokaLaws moka) (rlaws : RemoteLaws moka namespace redis) where
    -- What the first tier holds after an insertion.
    pub insert_may :
        (k k' : String) (u v : Bytes) (w : M) (may : May)
        → may k u
        → (k' ≢ k → moka.peek k' w ≡ some v → may k' v)
        → moka.peek k' (moka.insert k u w) ≡ some v
        → may k' v
    insert_may k k' u v w may here elsewhere p = elim (key_cases k' k) [
      | inl same ↦
          let is_u : v ≡ u = mlaws.insert_same k u v w (rw same at p) in rw (same, is_u) here
      | inr other ↦ elsewhere other (mlaws.insert_other k k' u v w p other)
    ]

    found :
        {k : String} {may : May} {c : LayeredCache M R} {v : Bytes}
        → Coherent may c
        → (l2_get moka redis namespace k c.l2).0 ≡ good (some v)
        → may k v
    found {k} {may} {c} {v} h e = h.l2_ok k v (l2_get_sound moka namespace redis k v c.l2 rlaws e)

    fill-IsGot :
        (k : String) (may : May) (c : LayeredCache M R) (answer : Answer (Option Bytes))
        → Coherent may c
        → (l2_get moka redis namespace k c.l2).0 ≡ answer
        → let p =
            fill moka redis namespace k
              (moka.get k c.l1).1
              c.l2
              c.inflight
              (answer, (l2_get moka redis namespace k c.l2).1) in
          IsGot k may p.0 p.1
    unfolding fill
    fill-IsGot k may c (good (some v)) h e = record {
      coherent = record {
        l1_ok = λ k' u p.
            insert_may k k' v u (moka.get k c.l1).1 may (found h e)
              (λ other q. h.l1_ok k' u (mlaws.get_keeps k k' u c.l1 q)) p;
        l2_ok = λ k' u p. h.l2_ok k' u (l2_get_keeps moka namespace redis k k' u c.l2 rlaws p);
      };
      sound = λ u p. let is_v : v ≡ u = cc in rw (← is_v) (found h e);
      missed = λ p. ground arith;
    }
    fill-IsGot k may c (good none) h e = record {
      coherent = record {
        l1_ok = λ k' u p. h.l1_ok k' u (mlaws.get_keeps k k' u c.l1 p);
        l2_ok = λ k' u p. h.l2_ok k' u (l2_get_keeps moka namespace redis k k' u c.l2 rlaws p);
      };
      sound = λ u p. ground arith;
      missed = λ p. l2_get-none moka namespace redis k c.l2 rlaws e;
    }
    fill-IsGot k may c (bad x) h e = record {
      coherent = record {
        l1_ok = λ k' u p. h.l1_ok k' u (mlaws.get_keeps k k' u c.l1 p);
        l2_ok = λ k' u p. h.l2_ok k' u (l2_get_keeps moka namespace redis k k' u c.l2 rlaws p);
      };
      sound = λ u p. ground arith;
      missed = λ p. ground arith;
    }

    pub get-IsGot :
        (k : String) (may : May) (c : LayeredCache M R)
        → Coherent may c
        → IsGot k may (get moka redis namespace k c).0 (get moka redis namespace k c).1
    get-IsGot k may c h = looked (moka.get k c.l1).0 refl
      where
        looked :
            (o : Option Bytes)
            → (moka.get k c.l1).0 ≡ o
            → IsGot k may (get moka redis namespace k c).0 (get moka redis namespace k c).1
        looked (some v) e = rw (get_hit k v c e) (record {
          coherent = record {
            l1_ok = λ k' u p. h.l1_ok k' u (mlaws.get_keeps k k' u c.l1 p);
            l2_ok = h.l2_ok;
          };
          sound = λ u p.
              let is_v : v ≡ u = cc in rw (← is_v) (h.l1_ok k v (mlaws.get_sound k v c.l1 e));
          missed = λ p. ground arith;
        })
        looked none e =
            rw (get_second k c e) (fill-IsGot k may c (l2_get moka redis namespace k c.l2).0 h refl)

    -- What Redis holds after a write, whatever its answer.
    pub set_remote :
        (k : String) (u : Bytes) (ttl : ℕ) (may : May) (c : LayeredCache M R)
        → Coherent may c
        → (k' : String) (v : Bytes)
        → l2_holds moka namespace redis k' (l2_set moka redis namespace k u ttl c.l2).1 ≡ some v
        → add_may k u may k' v
    set_remote k u ttl may c h k' v p = elim (key_cases k' k) [
      | inl same ↦ elim (l2_set_same moka namespace redis k u v ttl c.l2 rlaws (rw same at p)) [
        | inl is_u ↦ inl (same, is_u)
        | inr old ↦ inr (rw same (h.l2_ok k v old))
      ]
      | inr other ↦
          inr (h.l2_ok k' v (l2_set_other moka namespace redis k k' u v ttl c.l2 rlaws p other))
    ]

    pub set-Coherent :
        (k : String) (u : Bytes) (ttl : ℕ) (may : May) (c : LayeredCache M R)
        → Coherent may c
        → Coherent
            (elim (set moka redis namespace k u ttl c).0 [
              | good x ↦ put_may k u may
              | bad e ↦ add_may k u may
            ])
            (set moka redis namespace k u ttl c).1
    set-Coherent k u ttl may c h = answered (l2_set moka redis namespace k u ttl c.l2).0 refl
      where
        answered :
            (a : Answer (Unit {0}))
            → (l2_set moka redis namespace k u ttl c.l2).0 ≡ a
            → Coherent
                (elim (set moka redis namespace k u ttl c).0 [
                  | good x ↦ put_may k u may
                  | bad e ↦ add_may k u may
                ])
                (set moka redis namespace k u ttl c).1
        answered (good x) e = rw (set_put k u ttl x c e) (record {
          l1_ok = λ k' v p.
              insert_may k k' u v c.l1 (put_may k u may) (inl (refl, refl))
                (λ other q. inr (other, h.l1_ok k' v q)) p;
          l2_ok = λ k' v p. elim (key_cases k' k) [
            | inl same ↦
                inl (same, l2_set_done moka namespace redis k u v ttl c.l2 rlaws e (rw same at p))
            | inr other ↦ inr (
              other,
              h.l2_ok k' v (l2_set_other moka namespace redis k k' u v ttl c.l2 rlaws p other),
            )
          ];
        })
        answered (bad x) e = rw (set_failed k u ttl x c e) (record {
          l1_ok = λ k' v p. inr (h.l1_ok k' v p);
          l2_ok = λ k' v p. set_remote k u ttl may c h k' v p;
        })

    pub delete-Coherent :
        (k : String) (may : May) (c : LayeredCache M R)
        → Coherent may c
        → Coherent
            (elim (delete moka redis namespace k c).0 [ good b ↦ drop_may k may | bad e ↦ may ])
            (delete moka redis namespace k c).1
    unfolding delete
    delete-Coherent k may c h = answered (l2_delete moka redis namespace k c.l2).0 refl
      where
        local :
            (k' : String) (v : Bytes) → moka.peek k' (moka.invalidate k c.l1) ≡ some v → may k' v
        local k' v p = h.l1_ok k' v (mlaws.invalidate_keeps k k' v c.l1 p)

        remote :
            (k' : String) (v : Bytes)
            → l2_holds moka namespace redis k' (l2_delete moka redis namespace k c.l2).1 ≡ some v
            → may k' v
        remote k' v p = h.l2_ok k' v (l2_delete_keeps moka namespace redis k k' v c.l2 rlaws p)

        answered :
            (a : Answer Bool)
            → (l2_delete moka redis namespace k c.l2).0 ≡ a
            → Coherent
                (elim (delete moka redis namespace k c).0 [ good b ↦ drop_may k may | bad e ↦ may ])
                (delete moka redis namespace k c).1
        answered (good b) e = rw e (record {
          l1_ok = λ k' v p. (
            λ same. absurd (none-some (sym (mlaws.invalidate_gone k c.l1) ∙ rw same at p)),
            local k' v p,
          );
          l2_ok = λ k' v p. (
            λ same. absurd (
                none-some
                  (sym (l2_delete_done moka namespace redis k b c.l2 rlaws e) ∙ rw same at p)),
            remote k' v p,
          );
        })
        answered (bad x) e = rw e (record { l1_ok = local; l2_ok = remote })

    pub invalidate-Coherent :
        (k : String) (may : May) (c : LayeredCache M R)
        → Coherent may c
        → Coherent may (invalidate moka redis namespace k c).1
    unfolding invalidate
    invalidate-Coherent k may c h = record {
      l1_ok = λ k' v p. h.l1_ok k' v (mlaws.invalidate_keeps k k' v c.l1 p);
      l2_ok = λ k' v p. h.l2_ok k' v (l2_invalidate_keeps moka namespace redis k k' v c.l2 rlaws p);
    }

    pub heard-Coherent :
        (k : String) (may : May) (c : LayeredCache M R)
        → Coherent may c
        → Coherent may (heard moka redis namespace k c)
    unfolding heard
    heard-Coherent k may c h = record {
      l1_ok = λ k' v p.
          h.l1_ok k' v (mlaws.invalidate_keeps _ k' v c.l1 (mlaws.invalidate_keeps k k' v _ p));
      l2_ok = h.l2_ok;
    }
