-- ===== src/Chat/Types.antt =====
-- The data of the chat: crates/domain/src/chat.rs, and the ports of crates/domain/src/traits/chat.rs
-- and crates/application/src/chat.rs. Identifiers, UUIDs, are numbers in the order of UUIDs; a time is
-- a number of nanoseconds.
use Prim.Native.String
use kokkeak_api.Effect.{Outcome}
use kokkeak_api.User.{Role}
use kokkeak_api.Prelude.{ℕ, false, [], ◌∷◌, List, Option, Bool, String, ◌==◌, ◌||◌}
use kokkeak_api.Text.{is_empty, trim}

pub record Participant : Type 0 where
  pub user_id : ℕ
  pub role : Role

unfoldable pub ids_of : List Participant → List ℕ
ids_of [] = []
ids_of (p ∷ ps) = p.user_id ∷ ids_of ps

pub record ChatRoom : Type 0 where
  pub id : ℕ
  pub participants : List Participant
  pub created_at : ℕ
  pub last_msg_at : ℕ
  pub title : Option String

abbrev pub any_user : ℕ → List Participant → Bool
any_user user_id [] = false
any_user user_id (p ∷ ps) = p.user_id == user_id || any_user user_id ps

unfoldable pub contains : ChatRoom → ℕ → Bool
contains r user_id = any_user user_id r.participants

pub record ChatMessage : Type 0 where
  pub id : ℕ
  pub room_id : ℕ
  pub sender_id : ℕ
  pub body : String
  pub sent_at : ℕ
  pub read_by : List (ℕ × ℕ)

pub is_blank : ChatMessage → Bool
is_blank m = is_empty (trim m.body)

abbrev any_receipt : ℕ → List (ℕ × ℕ) → Bool
any_receipt user_id [] = false
any_receipt user_id ((uid, at) ∷ rs) = uid == user_id || any_receipt user_id rs

pub is_read_by : ChatMessage → ℕ → Bool
is_read_by m user_id = any_receipt user_id m.read_by

pub record RoomSummary : Type 0 where
  pub room : ChatRoom
  pub last_message : Option ChatMessage
  pub unread : ℕ

pub data ChatError : Type 0 where
  not_participant room_not_found : ℕ → ChatError
  invalid_body backend : String → ChatError

pub data ChatRepoError : Type 0 where
  row_not_found backend_error : String → ChatRepoError

-- The text that `thiserror` derives.
pub to_string : ChatRepoError → String
to_string (row_not_found s) = String.◌++◌ "not found: " s
to_string (backend_error s) = String.◌++◌ "chat backend error: " s

pub repo_err : ChatRepoError → ChatError
repo_err e = backend (to_string e)

pub record MessagePage : Type 0 where
  pub limit : ℕ
  pub before : Option ℕ

-- The repository, over the state `W` of what stands behind it.
pub record ChatRepository (W : Type 0) : Type 0 where
  pub find_room : ℕ → W → Outcome ChatRepoError (Option ChatRoom)
  pub find_room_by_participants : List ℕ → W → Outcome ChatRepoError (Option ChatRoom)
  pub create_room : ChatRoom → W → Outcome ChatRepoError (Unit {0}) × W
  pub touch_room : ℕ → ℕ → W → Outcome ChatRepoError (Unit {0}) × W
  pub list_rooms_for_user : ℕ → ℕ → W → Outcome ChatRepoError (List RoomSummary)
  pub list_messages : ℕ → MessagePage → W → Outcome ChatRepoError (List ChatMessage)
  pub insert_message : ChatMessage → W → Outcome ChatRepoError (Unit {0}) × W
  pub mark_read : ℕ → ℕ → ℕ → W → Outcome ChatRepoError (Unit {0}) × W

pub record ChatEvent : Type 0 where
  pub room_id : ℕ
  pub message : ChatMessage

-- The transport, over its own state.
pub record ChatTransport (T : Type 0) : Type 0 where
  pub broadcast_message : ChatEvent → T → Outcome ChatError (Unit {0}) × T
