-- ===== src/User/Laws.antt =====
-- Codes and tests of roles and account states.
use kokkeak_api.User.{
  Role, as_str, from_code, is_admin, any_admin, from_i32, has_role, contains_role,
  to_ascii_lowercase, as_i32, codes_eq, codes, is_super_admin, UserStatus, admin, User, super_admin,
  customer, pending, technician,
}
use kokkeak_api.Prelude.{refl, some, true, [], ◌∷◌, ◌≡◌, String, List, ℕ, arith, ◌||◌}

-- Every role is read back from its own name.
pub from_code-as_str : (r : Role) → from_code (as_str r) ≡ some r
unfolding as_str from_code
from_code-as_str customer = refl
from_code-as_str _ = refl

codes_eq_sound : (xs ys : List ℕ) → codes_eq xs ys ≡ true → xs ≡ ys
codes_eq_sound [] [] h = refl
codes_eq_sound (x ∷ xs) (y ∷ ys) h = ground (arith, codes_eq_sound xs ys)
codes_eq_sound [] (y ∷ ys) h = cc
codes_eq_sound (x ∷ xs) [] h = cc

-- A text is read as a role only if it is that role's name, but for the case of ASCII letters.
pub from_code_sound :
    (s : String) (r : Role) → from_code s ≡ some r → to_ascii_lowercase s ≡ codes (as_str r)
unfolding from_code as_str
from_code_sound s customer h =
    ground (arith, codes_eq_sound (to_ascii_lowercase s) (codes "customer"))
from_code_sound s technician h =
    ground (arith, codes_eq_sound (to_ascii_lowercase s) (codes "technician"))
from_code_sound s admin h = ground (arith, codes_eq_sound (to_ascii_lowercase s) (codes "admin"))
from_code_sound s super_admin h =
    ground (arith, codes_eq_sound (to_ascii_lowercase s) (codes "super_admin"))

-- The stored number of a state reads back as that state.
pub from_i32-as_i32 : (s : UserStatus) → from_i32 (as_i32 s) ≡ some s
unfolding from_i32 as_i32
from_i32-as_i32 pending = refl
from_i32-as_i32 _ = refl

-- A number that reads as a state is the one stored for it.
pub as_i32-from_i32 : (v : ℕ) (s : UserStatus) → from_i32 v ≡ some s → as_i32 s ≡ v
unfolding from_i32 as_i32
as_i32-from_i32 v s h = ground arith

any_admin-contains_role :
    (rs : List Role) → any_admin rs ≡ (contains_role admin rs || contains_role super_admin rs)
unfolding any_admin contains_role
any_admin-contains_role [] = refl
any_admin-contains_role (r ∷ rs) = ground (arith, any_admin-contains_role rs)

-- A user is an administrator exactly if one of the two administrator roles is held, so a super
-- administrator is one.
pub is_admin-has_role : (u : User) → is_admin u ≡ (has_role u admin || is_super_admin u)
unfolding is_admin has_role is_super_admin
is_admin-has_role u = any_admin-contains_role u.roles
