-- ===== src/Chat/Tests.antt =====
-- Tests of crates/application/src/chat.rs, at a repository that is a list of rooms, which takes every
-- message and fails to touch a room, and a transport that keeps its events.
use kokkeak_api.Chat.Types.{
  ChatRoom, ChatRepository, ChatTransport, ChatEvent, Participant, backend_error, ids_of,
  ChatMessage, MessagePage,
}
use kokkeak_api.Effect.{good, bad}
use kokkeak_api.Prelude.{
  ℕ, refl, none, some, [], if◌then◌else◌, ◌∷◌, List, arith, ◌++◌, Option, ◌≡◌, ◌==◌, ◌≤◌, length,
}
use kokkeak_api.Chat.{ChatService, open_room, sort_by_id, insert_by_id, create_missing}
use kokkeak_api.User.{customer, technician, User, active}
use kokkeak_api.Chat.Mongo.{
  Rooms, RoomDoc, room_to_doc, create_room, mongo, selecting, to_set, set_insert,
  find_room_by_participants, first_same, same_set,
}

abbrev one : Participant
one = record { user_id = 1; role = customer }

abbrev two : Participant
two = record { user_id = 2; role = technician }

abbrev room : ChatRoom
room = record {
  id = 9;
  participants = one ∷ two ∷ [];
  created_at = 5;
  last_msg_at = 5;
  title = none;
}

abbrev find : ℕ → List ChatRoom → Option ChatRoom
find id [] = none
find id (r ∷ rs) = if r.id == id then some r else find id rs

abbrev others : ChatRepository (List ChatRoom)
others = record {
  find_room = λ id w. good (find id w);
  find_room_by_participants = λ ids w. good none;
  create_room = λ r w. (good tt, w);
  touch_room = λ id at w. (bad (backend_error "down"), w);
  list_rooms_for_user = λ id limit w. good [];
  list_messages = λ id page w. good [];
  insert_message = λ m w. (good tt, w ++ room ∷ []);
  mark_read = λ id user at w. (good tt, w);
}

abbrev bus : ChatTransport (List ChatEvent)
bus = record { broadcast_message = λ e t. (good tt, t ++ e ∷ []) }

abbrev rooms : Rooms (List RoomDoc)
rooms = record {
  find_all = λ us c. good (selecting us c);
  insert_one = λ d c. (good tt, c ++ d ∷ []);
  holds = λ c. c;
}

abbrev other_operations : ChatRepository (List RoomDoc)
other_operations = record {
  find_room = λ id w. good none;
  find_room_by_participants = λ ids w. good none;
  create_room = λ r w. (good tt, w);
  touch_room = λ id at w. (good tt, w);
  list_rooms_for_user = λ id limit w. good [];
  list_messages = λ id page w. good [];
  insert_message = λ m w. (good tt, w);
  mark_read = λ id user at w. (good tt, w);
}

abbrev with_rooms : ChatService (List RoomDoc) (List ChatEvent)
with_rooms = record { repo = mongo rooms other_operations; transport = bus }

abbrev made : ChatRoom
made = record room { id = 7; created_at = 5000001; last_msg_at = 5000001 }

abbrev plain : ChatService (List ChatRoom) (List ChatEvent)
plain = record { repo = others; transport = bus }

opened :
    open_room with_rooms 5000001 7 (one ∷ two ∷ []) ([], [])
    ≡ (good made, (room_to_doc made ∷ [], []))
unfolding ids_of to_set set_insert open_room find_room_by_participants sort_by_id insert_by_id
    first_same same_set create_missing create_room room_to_doc
opened = refl

abbrev visitor : User
visitor = record {
  id = 2;
  username = "bo";
  password_hash = "";
  first_name = "";
  last_name = "";
  roles = technician ∷ [];
  permissions = [];
  status = active;
  created_at = 0;
  updated_at = 0;
}

abbrev member_of_nine : User
member_of_nine = record visitor { id = 1 }

listed_few :
    (id : ℕ) (page : MessagePage) (ms : List ChatMessage)
    → plain.repo.list_messages id page (room ∷ []) ≡ good ms
    → length ms ≤ page.limit
listed_few id page ms h = let same : [] ≡ ms = ground arith in rw⁻¹ same (omega arith)
