-- ===== src/User.antt =====
-- Users, roles and account states: crates/domain/src/user.rs. A `Uuid` and a time are numbers; text
-- is compared, trimmed and folded to ASCII lower case as Rust does.
pub mod Laws
mod Tests
use Prim.Native.Char.{Char, code, char}
use Prim.Native.String
use kokkeak_api.Prelude.{
  ℕ, none, some, true, false, [], if◌then◌else◌, ◌∷◌, Option, Bool, leb, List, String, ◌&&◌, ◌||◌,
  ◌==◌, ◌+◌,
}
use kokkeak_api.Permission.{Permission}
use kokkeak_api.Text.{trim, is_empty}

pub data Role : Type 0 where
  customer technician admin super_admin : Role

unfoldable pub as_str : Role → String
as_str customer = "customer"
as_str technician = "technician"
as_str admin = "admin"
as_str super_admin = "super_admin"

-- The code points of `str::to_ascii_lowercase`.
pub ascii_lower : ℕ → ℕ
ascii_lower c = if leb b'A' c && leb c b'Z' then c + 32 else c

pub to_ascii_lowercase : String → List ℕ
unfolding ascii_lower
to_ascii_lowercase String.[] = []
to_ascii_lowercase (String.◌∷◌ c s) = ascii_lower (code c) ∷ to_ascii_lowercase s

abbrev pub codes : String → List ℕ
codes String.[] = []
codes (String.◌∷◌ c s) = code c ∷ codes s

abbrev pub codes_eq : List ℕ → List ℕ → Bool
codes_eq [] [] = true
codes_eq (x ∷ xs) (y ∷ ys) = x == y && codes_eq xs ys
codes_eq _ _ = false

pub from_code : String → Option Role
unfolding to_ascii_lowercase
from_code s =
    let lower = to_ascii_lowercase s in
    if codes_eq lower (codes "customer")
    then some customer
    else if codes_eq lower (codes "technician")
    then some technician
    else if codes_eq lower (codes "admin")
    then some admin
    else if codes_eq lower (codes "super_admin")
    then some super_admin
    else none

pub data UserStatus : Type 0 where
  pending active suspended deleted : UserStatus

unfoldable pub can_login : UserStatus → Bool
can_login active = true
can_login _ = false

pub as_i32 : UserStatus → ℕ
as_i32 pending = 0
as_i32 active = 1
as_i32 suspended = 2
as_i32 deleted = 3

-- On the non-negative values of an `i32`; a negative one is no status either.
pub from_i32 : ℕ → Option UserStatus
from_i32 v =
    if v == 0
    then some pending
    else if v == 1
    then some active
    else if v == 2
    then some suspended
    else if v == 3
    then some deleted
    else none

pub record User : Type 0 where
  pub id : ℕ
  pub first_name : String
  pub last_name : String
  pub username : String
  pub password_hash : String
  pub roles : List Role
  pub permissions : List Permission
  pub status : UserStatus
  pub created_at : ℕ
  pub updated_at : ℕ

-- `==` on roles, which Rust derives.
pub role_eq : Role → Role → Bool
role_eq customer customer = true
role_eq technician technician = true
role_eq admin admin = true
role_eq super_admin super_admin = true
role_eq _ _ = false

pub contains_role : Role → List Role → Bool
unfolding role_eq
contains_role r [] = false
contains_role r (x ∷ xs) = role_eq x r || contains_role r xs

pub has_role : User → Role → Bool
unfolding contains_role
has_role u r = contains_role r u.roles

abbrev admin_role : Role → Bool
admin_role admin = true
admin_role super_admin = true
admin_role _ = false

-- The test that `User::is_admin` and `AuthSession::is_admin` make of their roles.
pub any_admin : List Role → Bool
any_admin [] = false
any_admin (r ∷ rs) = admin_role r || any_admin rs

pub is_admin : User → Bool
unfolding any_admin
is_admin u = any_admin u.roles

pub is_super_admin : User → Bool
unfolding contains_role
is_super_admin u = contains_role super_admin u.roles

unfoldable pub can_authenticate : User → Bool
unfolding can_login
can_authenticate u = can_login u.status

pub display_name : User → String
unfolding trim
display_name u =
    let first = trim u.first_name in
    let last = trim u.last_name in
    if is_empty first && is_empty last
    then ""
    else if is_empty first
    then last
    else if is_empty last
    then first
    else String.◌++◌ first (String.◌++◌ " " last)
