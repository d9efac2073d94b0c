-- ===== src/Chat/Rooms.antt =====
-- Opening a room with `open_room` of crates/application/src/chat.rs, over the search of
-- crates/infra/src/db/mongo_chat.rs.
use kokkeak_api.Prelude.{ℕ, some, true, [], ◌∷◌, List, ◌≡◌, ◌/◌, Bool, ◌&&◌}
use kokkeak_api.Effect.{good}
use kokkeak_api.Chat.Mongo.{to_set, first_same, selecting, Rooms, RoomsLaws, mongo}
use kokkeak_api.Chat.Types.{Participant, ids_of, ChatRoom, any_user, ChatRepository, ChatTransport}
use kokkeak_api.Chat.{ChatService, open_room}

-- A list of participants has all these users.
has_all : List ℕ → List Participant → Bool
has_all [] ps = true
has_all (u ∷ us) ps = any_user u ps && has_all us ps

-- The same room, but for what is less than a millisecond in its times.
pub record SameRoom (room again : ChatRoom) : Type 0 where
  pub same_id : again.id ≡ room.id
  pub same_participants : again.participants ≡ room.participants
  pub same_title : again.title ≡ room.title
  pub same_created_at : again.created_at / 1000000 ≡ room.created_at / 1000000
  pub same_last_msg_at : again.last_msg_at / 1000000 ≡ room.last_msg_at / 1000000

abbrev pub wanted : List Participant → List ℕ
wanted ps = to_set (ids_of ps)

module _ {C T : Type 0} (rooms : Rooms C) (laws : RoomsLaws rooms) (others : ChatRepository C)
    (transport : ChatTransport T) where
  abbrev service : ChatService C T
  service = record { repo = mongo rooms others; transport = transport }

  abbrev FoundAgain : ℕ → ℕ → List Participant → ChatRoom → C × T → Type 0
  FoundAgain now id ps room st =
      (again : ChatRoom) × SameRoom room again
      × (first_same (wanted ps)
            (selecting (wanted ps) (rooms.holds (open_room service now id ps st).1.0))
          ≡ good (some again))
