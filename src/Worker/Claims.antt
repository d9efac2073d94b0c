-- ===== src/Worker/Claims.antt =====
-- Claims on messages: crates/worker/src/idempotency.rs. A `HashSet` is the list of its elements; the
-- order in which the table would iterate them is the parameter `iter`, which nothing depends on but
-- the choice of the entries that a full set drops.
pub mod Laws
use Prim.Native.String
use kokkeak_api.Prelude.{
  ℕ, suc, ◌/◌, String, Bool, true, false, ◌||◌, List, [], ◌∷◌, length, take, str_eq, leb,
  if◌then◌else◌,
}

infixr 65 ◌++ₛ◌
abbrev ◌++ₛ◌ : String → String → String
s ++ₛ t = String.◌++◌ s t

pub record IdempotencyKey : Type 0 where
  pub consumer : String
  pub message_id : String

unfoldable pub cache_key : IdempotencyKey → String
cache_key key = "kokkeak:idemp:" ++ₛ key.consumer ++ₛ ":" ++ₛ key.message_id

-- `HashSet::contains`, `remove` and `insert`.
abbrev pub contains : String → List String → Bool
contains k [] = false
contains k (j ∷ set) = str_eq j k || contains k set

abbrev pub remove : String → List String → List String
remove k [] = []
remove k (j ∷ set) = if str_eq j k then set else j ∷ remove k set

abbrev pub remove_all : List String → List String → List String
remove_all [] set = set
remove_all (k ∷ ks) set = remove_all ks (remove k set)

pub record InMemoryIdempotency : Type 0 where
  pub seen : List String
  pub max_entries : ℕ

abbrev pub new : ℕ → InMemoryIdempotency
new max_entries = record { seen = []; max_entries = max_entries }

-- What a full set drops before the next key goes in.
make_room : (List String → List String) → InMemoryIdempotency → List String
make_room iter s =
    if leb s.max_entries (length s.seen)
    then remove_all (take (s.max_entries / 2) (iter s.seen)) s.seen
    else s.seen

-- `claim`, which never fails in memory.
unfoldable pub claim :
    (List String → List String) → IdempotencyKey → InMemoryIdempotency → Bool × InMemoryIdempotency
unfolding make_room
claim iter key s =
    if contains (cache_key key) s.seen
    then (false, s)
    else (true, record s { seen = cache_key key ∷ make_room iter s })
