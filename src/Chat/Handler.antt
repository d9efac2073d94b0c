-- ===== src/Chat/Handler.antt =====
-- What the handlers of crates/api/src/handlers/chat.rs make of the service's answers, with `PageMeta`
-- of crates/common/src/response.rs. `to_rfc3339`, the text of a time, is a parameter.
use kokkeak_api.Chat.{ChatService, list_messages, clamp}
use kokkeak_api.Chat.Types.{
  ChatMessage, ChatError, not_participant, room_not_found, invalid_body, backend, Participant,
  MessagePage,
}
use kokkeak_api.Effect.{good}
use kokkeak_api.User.{User, Role, super_admin, admin, customer, technician}
use kokkeak_api.Prelude.{
  ℕ, ◌≡◌, none, some, false, [], if◌then◌else◌, ◌∷◌, String, Bool, List, Option, length, str_eq,
  ◌%◌, ◌≤◌, u32_mod, ◌<◌, ◌||◌, ◌==◌, arith,
}
use kokkeak_api.Auth.Types.{AuthSession, session_has_role}
use kokkeak_api.Chat.Reading.{list_messages-eq-good}

pub record PageMeta : Type 0 where
  pub limit : ℕ
  pub has_next : Bool
  pub next_cursor : Option String

abbrev last_sent : (ℕ → String) → List ChatMessage → Option String
last_sent show [] = none
last_sent show (m ∷ []) = some (show m.sent_at)
last_sent show (m ∷ m' ∷ ms) = last_sent show (m' ∷ ms)

-- The end of `list_messages`: the limit is the one that the client asked for.
pub page_meta : (ℕ → String) → ℕ → List ChatMessage → PageMeta
page_meta show limit items = record {
  limit = limit;
  has_next = length items % u32_mod == limit;
  next_cursor = last_sent show items;
}

-- The status and the code of `chat_err_to_response`.
pub chat_err_to_response : ChatError → ℕ × String
chat_err_to_response (not_participant r) = (403, "forbidden")
chat_err_to_response (room_not_found r) = (404, "not_found")
chat_err_to_response (invalid_body s) = (422, "validation")
chat_err_to_response (backend s) = (500, "internal")

-- `my_role`: the highest of the roles in the session.
pub my_role : AuthSession → Role
my_role user =
    if session_has_role user super_admin
    then super_admin
    else if session_has_role user admin
    then admin
    else if session_has_role user technician
    then technician
    else customer

pub parse_role : String → Option Role
parse_role s =
    if str_eq s "customer"
    then some customer
    else if str_eq s "technician"
    then some technician
    else if str_eq s "admin"
    then some admin
    else if str_eq s "super_admin" || str_eq s "superadmin"
    then some super_admin
    else none

-- `open_room`: what the service is called with.
pub participants_of : AuthSession → ℕ → Role → List Participant
participants_of user other_user_id other_role =
    record { user_id = user.user_id; role = my_role user }
    ∷ record { user_id = other_user_id; role = other_role }
    ∷ []

module _ {W T : Type 0} (sv : ChatService W T) (show : ℕ → String) where
  -- A client that asks for more than 200 messages is told that there are no more, however many there
  -- are: for a repository that lists no more messages than it is asked for.
  pub has_next_lost :
      (room_id limit : ℕ) (user : User) (before : Option ℕ) (st : W × T)
      (messages : List ChatMessage)
      → ((id : ℕ) (page : MessagePage) (ms : List ChatMessage)
          → sv.repo.list_messages id page st.0 ≡ good ms
          → length ms ≤ page.limit)
      → 200 < limit
      → list_messages sv room_id user before limit st ≡ (good messages, st)
      → (page_meta show limit messages).has_next ≡ false
  unfolding page_meta
  has_next_lost room_id limit user before st messages few many listed =
      let page : MessagePage = record { limit = clamp 1 200 limit; before = before } in
      let short =
        few room_id page messages
          (list_messages-eq-good sv room_id limit user before st st messages listed) in
      ground arith
