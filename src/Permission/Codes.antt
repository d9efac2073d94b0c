-- ===== src/Permission/Codes.antt =====
-- The codes are a faithful encoding of the permissions.
use kokkeak_api.Permission.{Permission, code, from_code, page_dashboard_view}
use kokkeak_api.Prelude.{refl, some, ◌≡◌}

-- Every permission is read back from its own code.
pub from_code-code : (p : Permission) → from_code (code p) ≡ some p
unfolding code from_code
from_code-code page_dashboard_view = refl
from_code-code _ = refl

-- No two permissions share a code.
pub code-injective : (p q : Permission) → code p ≡ code q → p ≡ q
code-injective p q h = cc (from_code-code p, from_code-code q)
