-- ===== src/Dict.antt =====
-- Rust's `HashMap` with keys of type `String`, as an association list; a list may hold a key more
-- than once, and then the first entry counts.
use kokkeak_api.Prelude.{
  String, refl, none, some, [], if◌then◌else◌, ◌∷◌, Option, List, str_eq, ◌≡◌, arith, eq_iff,
}

abbrev pub Dict {ℓ} : Type ℓ → Type ℓ
Dict V = List (String × V)

module _ {ℓ} {V : Type ℓ} where
  unfoldable pub lookup : String → Dict V → Option V
  lookup k [] = none
  lookup k ((j, v) ∷ d) = if str_eq j k then some v else lookup k d

  unfoldable pub insert : String → V → Dict V → Dict V
  insert k v [] = (k, v) ∷ []
  insert k v ((j, w) ∷ d) = if str_eq j k then (k, v) ∷ d else (j, w) ∷ insert k v d

  unfoldable pub erase : String → Dict V → Dict V
  erase k [] = []
  erase k ((j, v) ∷ d) = let rest = erase k d in if str_eq j k then rest else (j, v) ∷ rest

  pub lookup-insert :
      (k j : String) (v : V) (d : Dict V)
      → lookup j (insert k v d) ≡ (if str_eq k j then some v else lookup j d)
  unfolding lookup insert
  lookup-insert k j v [] = refl
  lookup-insert k j v ((i, w) ∷ d) =
      ground (arith, eq_iff k j, eq_iff i k, eq_iff i j, lookup-insert k j v d)

  pub lookup-erase :
      (k j : String) (d : Dict V) → lookup j (erase k d) ≡ (if str_eq k j then none else lookup j d)
  unfolding lookup erase
  lookup-erase k j [] = ground arith
  lookup-erase k j ((i, w) ∷ d) =
      ground (arith, eq_iff k j, eq_iff i k, eq_iff i j, lookup-erase k j d)
