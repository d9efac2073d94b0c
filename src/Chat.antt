-- ===== src/Chat.antt =====
-- The chat service: crates/application/src/chat.rs. The clock's reading and the identifiers that a
-- method draws are arguments.
pub mod Types
pub mod Mongo
pub mod Rooms
pub mod Sending
pub mod Reading
pub mod Handler
mod Tests
use Prim.Native.String
use Prim.Native.String.{len}
use kokkeak_api.Effect.{Outcome, Method, good, bad, ◌>>=◌, ◌>>◌, pure, raise, some_or, read, write}
use kokkeak_api.User.{User}
use kokkeak_api.Chat.Types.{
  ChatRoom, ChatMessage, Participant, ChatRepository, ChatTransport, ChatError, invalid_body,
  contains, repo_err, ChatRepoError, ChatEvent, not_participant, RoomSummary, room_not_found,
  ids_of,
}
use kokkeak_api.Prelude.{
  ℕ, none, some, false, [], if◌then◌else◌, ◌∷◌, Option, List, Bool, min, String, leb, ltb, max,
  length,
}
use kokkeak_api.Text.{is_empty, trim}

abbrev pub max_body_len : ℕ
max_body_len = 4000

pub record ChatService (W T : Type 0) : Type 0 where
  pub repo : ChatRepository W
  pub transport : ChatTransport T

-- `sort_by_key(|p| p.user_id)`, which keeps the order of equal keys.
pub insert_by_id : Participant → List Participant → List Participant
insert_by_id p [] = p ∷ []
insert_by_id p (q ∷ qs) =
    let rest = insert_by_id p qs in if leb p.user_id q.user_id then p ∷ q ∷ qs else q ∷ rest

pub sort_by_id : List Participant → List Participant
sort_by_id [] = []
sort_by_id (p ∷ ps) = insert_by_id p (sort_by_id ps)

abbrev clamp : ℕ → ℕ → ℕ → ℕ
clamp low high n = min (max n low) high

abbrev pub new_room : ℕ → ℕ → List Participant → ChatRoom
new_room now id participants = record {
  id = id;
  participants = participants;
  created_at = now;
  last_msg_at = now;
  title = none;
}

abbrev pub new_message : ℕ → ℕ → ℕ → ℕ → String → ChatMessage
new_message now id room_id sender_id body = record {
  id = id;
  room_id = room_id;
  sender_id = sender_id;
  body = body;
  sent_at = now;
  read_by = [];
}

-- A call of the repository, beside the transport's state.
abbrev on_repo : {W T A : Type 0} → (W → Outcome ChatRepoError A) → Method ChatError (W × T) A
on_repo f = read repo_err (λ st. f st.0)

abbrev on_repo_write :
    {W T A : Type 0} → (W → Outcome ChatRepoError A × W) → Method ChatError (W × T) A
on_repo_write f = write repo_err (λ st. let (r, w) = f st.0 in (r, (w, st.1)))

module _ {W T : Type 0} (sv : ChatService W T) where
  pub create_missing :
      ℕ → ℕ → List Participant → Option ChatRoom → Method ChatError (W × T) ChatRoom
  create_missing now id participants (some room) = pure room
  create_missing now id participants none = do
    on_repo_write (sv.repo.create_room (new_room now id participants))
    pure (new_room now id participants)

  pub open_room : ℕ → ℕ → List Participant → Method ChatError (W × T) ChatRoom
  open_room now id participants =
      if ltb (length participants) 2
      then raise (invalid_body "room needs at least 2 participants")
      else (let sorted = sort_by_id participants in
          on_repo (sv.repo.find_room_by_participants (ids_of sorted))
          >>= create_missing now id sorted)

  -- A failed broadcast is only logged.
  pub broadcast : ChatEvent → Method ChatError (W × T) (Unit {0})
  broadcast event (w, t) = (good tt, (w, (sv.transport.broadcast_message event t).1))

  pub store : ChatMessage → Method ChatError (W × T) ChatMessage
  store msg = do
    on_repo_write (sv.repo.insert_message msg)
    on_repo_write (sv.repo.touch_room msg.room_id msg.sent_at)
    broadcast (record { room_id = msg.room_id; message = msg })
    pure msg

  pub send_to : ℕ → ℕ → ℕ → ℕ → String → ChatRoom → Method ChatError (W × T) ChatMessage
  send_to now id room_id sender_id body room =
      if contains room sender_id
      then store (new_message now id room_id sender_id body)
      else raise (not_participant room_id)

  pub send_message : ℕ → ℕ → ℕ → ℕ → String → Method ChatError (W × T) ChatMessage
  send_message now id room_id sender_id body =
      if is_empty (trim body)
      then raise (invalid_body "empty body")
      else if ltb max_body_len (len body)
      then raise (invalid_body "body too long (max 4000 bytes)")
      else (do
        found ← on_repo (sv.repo.find_room room_id)
        room ← some_or (room_not_found room_id) found
        send_to now id room_id sender_id body room)

  pub list_rooms_for : User → ℕ → Method ChatError (W × T) (List RoomSummary)
  list_rooms_for user limit = on_repo (sv.repo.list_rooms_for_user user.id (clamp 1 200 limit))

  -- `ChatMembership::is_participant`: no room, no participant.
  abbrev pub member : ℕ → Option ChatRoom → Bool
  member user_id none = false
  member user_id (some r) = contains r user_id

  pub is_participant : ℕ → ℕ → Method ChatError (W × T) Bool
  is_participant room_id user_id = do
    found ← on_repo (sv.repo.find_room room_id)
    pure (member user_id found)

  -- `Err(NotParticipant)` unless the user is allowed.
  abbrev if_member :
      {A : Type 0} → ℕ → Method ChatError (W × T) A → Bool → Method ChatError (W × T) A
  if_member room_id m allowed = if allowed then m else raise (not_participant room_id)

  pub list_messages : ℕ → User → Option ℕ → ℕ → Method ChatError (W × T) (List ChatMessage)
  list_messages room_id user before limit =
      is_participant room_id user.id
      >>= if_member room_id (
          on_repo
            (sv.repo.list_messages room_id (record { limit = clamp 1 200 limit; before = before })))

  pub mark_read : ℕ → ℕ → User → Method ChatError (W × T) (Unit {0})
  mark_read now room_id user =
      is_participant room_id user.id
      >>= if_member room_id (on_repo_write (sv.repo.mark_read room_id user.id now))
