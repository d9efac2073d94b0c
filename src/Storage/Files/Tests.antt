-- ===== src/Storage/Files/Tests.antt =====
-- Tests of the paths of crates/infra/src/storage/local.rs.
use kokkeak_api.Storage.{root_dir, normal}
use kokkeak_api.Storage.Files.{rsplit_dot, tmp_name, tmp_path, parent_of}
use kokkeak_api.Prelude.{◌≡◌, refl, [], ◌∷◌, some}

beside :
    tmp_path (root_dir ∷ normal "srv" ∷ normal "a.webp" ∷ [])
    ≡ root_dir ∷ normal "srv" ∷ normal "a.webp.tmp" ∷ []
unfolding tmp_path tmp_name rsplit_dot
beside = refl

no_extension : tmp_name "logo" ≡ "logo.part.tmp"
unfolding tmp_name rsplit_dot
no_extension = refl

hidden : tmp_name ".logo" ≡ ".logo.part.tmp"
unfolding tmp_name rsplit_dot
hidden = refl

parent :
    parent_of (root_dir ∷ normal "srv" ∷ normal "a.webp" ∷ []) ≡ some (root_dir ∷ normal "srv" ∷ [])
unfolding parent_of
parent = refl
