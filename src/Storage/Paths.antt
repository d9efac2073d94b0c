-- ===== src/Storage/Paths.antt =====
-- Where the paths of crates/infra/src/storage/local.rs lead.
use mathlib.Core.List.{append_assoc}
use kokkeak_api.Storage.{
  Component, root_dir, cur_dir, parent_dir, normal, resolve, any_escapes, components,
}
use kokkeak_api.Effect.{good}
use kokkeak_api.Prelude.{◌≡◌, refl, false, [], ◌∷◌, List, String, ◌++◌, arith, ◌∙◌, sym, ap}

abbrev parent : List String → List String
parent [] = []
parent (d ∷ ds) = ds

-- The place that a path leads to from a place, as the names on the way up: without links.
pub walk : List Component → List String → List String
walk [] place = place
walk (root_dir ∷ cs) place = walk cs []
walk (cur_dir ∷ cs) place = walk cs place
walk (parent_dir ∷ cs) place = walk cs (parent place)
walk (normal name ∷ cs) place = walk cs (name ∷ place)

walk-append :
    (xs ys : List Component) (place : List String) → walk (xs ++ ys) place ≡ walk ys (walk xs place)
unfolding walk
walk-append [] ys place = refl
walk-append (root_dir ∷ xs) ys place = walk-append xs ys []
walk-append (cur_dir ∷ xs) ys place = walk-append xs ys place
walk-append (parent_dir ∷ xs) ys place = walk-append xs ys (parent place)
walk-append (normal name ∷ xs) ys place = walk-append xs ys (name ∷ place)

-- A path that does not escape only goes down.
walk_down :
    (cs : List Component) (place : List String)
    → any_escapes cs ≡ false
    → (names : List String) × (walk cs place ≡ names ++ place)
unfolding walk any_escapes
walk_down [] place safe = ([], refl)
walk_down (root_dir ∷ cs) place safe = ground arith
walk_down (parent_dir ∷ cs) place safe = ground arith
walk_down (cur_dir ∷ cs) place safe = walk_down cs place safe
walk_down (normal name ∷ cs) place safe =
    let (names, down) = walk_down cs (name ∷ place) safe in
    (names ++ name ∷ [], down ∙ sym (append_assoc names (name ∷ []) place))

-- No key leads out of the store: the path that a key is resolved to, wherever one starts to follow it,
-- leads to the store's root or to a place below it, on a file system without links.
pub resolve_below :
    (root path : List Component) (key : String) (place : List String)
    → resolve root key ≡ good path
    → (names : List String) × (walk path place ≡ names ++ walk root place)
unfolding resolve
resolve_below root path key place resolved =
    let safe : any_escapes (components key) ≡ false = ground arith in
    let joined : root ++ components key ≡ path = ground arith in
    let (names, down) = walk_down (components key) (walk root place) safe in
    (names, ap (λ p. walk p place) (sym joined) ∙ walk-append root (components key) place ∙ down)
