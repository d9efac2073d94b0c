-- ===== src/Storage/Tests.antt =====
-- Tests of crates/infra/src/storage/local.rs.
use kokkeak_api.Storage.{
  Component, root_dir, normal, resolve, components, segments, later_components, component_of,
  is_absolute, any_escapes, invalid_key,
}
use kokkeak_api.Storage.Paths.{walk, resolve_below}
use kokkeak_api.Effect.{good, bad}
use kokkeak_api.Prelude.{◌≡◌, refl, [], ◌∷◌, List, String, ◌++◌}

abbrev root : List Component
root = root_dir ∷ normal "srv" ∷ []

abbrev file : List Component
file = root_dir ∷ normal "srv" ∷ normal "users" ∷ normal "a.webp" ∷ []

resolved : resolve root "users//./a.webp" ≡ good file
unfolding resolve components segments later_components component_of is_absolute any_escapes
resolved = refl

refused_parent : resolve root "users/../../etc" ≡ bad (invalid_key "users/../../etc")
unfolding resolve components segments later_components component_of is_absolute any_escapes
refused_parent = refl

refused_absolute : resolve root "/etc" ≡ bad (invalid_key "/etc")
unfolding resolve components segments later_components component_of is_absolute any_escapes
refused_absolute = refl

resolve_below_example : (names : List String) × (walk file [] ≡ names ++ walk root [])
resolve_below_example = resolve_below root file "users//./a.webp" [] resolved
