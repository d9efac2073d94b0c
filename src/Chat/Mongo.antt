-- ===== src/Chat/Mongo.antt =====
-- The search for a room by its participants: crates/infra/src/db/mongo_chat.rs. The collection of
-- rooms, of the crate mongodb, is a parameter. A document is a record of its fields, with a UUID's text
-- as the UUID; one that lacks a field is the error that its conversion gives.
use kokkeak_api.Effect.{Outcome, good, bad}
use kokkeak_api.Chat.Types.{ChatRoom, ChatRepository, ChatRepoError, Participant, ids_of}
use kokkeak_api.User.{Role, customer, technician, admin, super_admin, as_str}
use kokkeak_api.Prelude.{
  ℕ, none, some, true, false, [], if◌then◌else◌, ◌∷◌, List, ltb, Bool, ◌≡◌, Option, ◌&&◌, ◌++◌,
  ◌||◌, ◌/◌, ◌*◌, String, str_eq, length, ◌==◌,
}

-- `BTreeSet<Uuid>`, by its elements in order.
unfoldable pub set_insert : ℕ → List ℕ → List ℕ
set_insert x [] = x ∷ []
set_insert x (y ∷ ys) =
    let rest = set_insert x ys in
    if ltb x y then x ∷ y ∷ ys else if x == y then y ∷ ys else y ∷ rest

unfoldable pub to_set : List ℕ → List ℕ
to_set [] = []
to_set (x ∷ xs) = set_insert x (to_set xs)

unfoldable pub same_set : List ℕ → List ℕ → Bool
same_set [] [] = true
same_set [] (y ∷ ys) = false
same_set (x ∷ xs) [] = false
same_set (x ∷ xs) (y ∷ ys) = x == y && same_set xs ys

-- A document of the collection: a time is a number of milliseconds, as in the crate bson.
pub record RoomDoc : Type 0 where
  pub id : ℕ
  pub participants : List (ℕ × String)
  pub created_at : ℕ
  pub last_msg_at : ℕ
  pub title : Option String

abbrev pub nanos_per_milli : ℕ
nanos_per_milli = 1000000

abbrev pub docs_of : List Participant → List (ℕ × String)
docs_of [] = []
docs_of (p ∷ ps) = (p.user_id, as_str p.role) ∷ docs_of ps

-- `from_chrono` drops what is less than a millisecond.
unfoldable pub room_to_doc : ChatRoom → RoomDoc
room_to_doc r = record {
  id = r.id;
  participants = docs_of r.participants;
  created_at = r.created_at / nanos_per_milli;
  last_msg_at = r.last_msg_at / nanos_per_milli;
  title = r.title;
}

unfoldable pub role_of : String → Option Role
role_of s =
    if str_eq s "customer"
    then some customer
    else if str_eq s "technician"
    then some technician
    else if str_eq s "admin"
    then some admin
    else if str_eq s "super_admin"
    then some super_admin
    else none

-- A participant whose role is not known is left out.
abbrev and_participant : ℕ → Option Role → List Participant → List Participant
and_participant user_id none ps = ps
and_participant user_id (some r) ps = record { user_id = user_id; role = r } ∷ ps

unfoldable pub participants_of_docs : List (ℕ × String) → List Participant
participants_of_docs [] = []
participants_of_docs ((user_id, role) ∷ ds) =
    and_participant user_id (role_of role) (participants_of_docs ds)

unfoldable pub room_from_doc : RoomDoc → ChatRoom
room_from_doc d = record {
  id = d.id;
  participants = participants_of_docs d.participants;
  created_at = d.created_at * nanos_per_milli;
  last_msg_at = d.last_msg_at * nanos_per_milli;
  title = d.title;
}

-- `find({"participants.user_id": {"$all": …}})` and `insert_one`; `holds` is what the collection
-- holds, for `RoomsLaws`.
pub record Rooms (C : Type 0) : Type 0 where
  pub find_all : List ℕ → C → Outcome ChatRepoError (List (Outcome ChatRepoError RoomDoc))
  pub insert_one : RoomDoc → C → Outcome ChatRepoError (Unit {0}) × C
  pub holds : C → List RoomDoc

abbrev pub names_user : ℕ → List (ℕ × String) → Bool
names_user u [] = false
names_user u ((v, role) ∷ ds) = v == u || names_user u ds

abbrev pub names_all : List ℕ → List (ℕ × String) → Bool
names_all [] ds = true
names_all (u ∷ us) ds = names_user u ds && names_all us ds

abbrev pub selecting : List ℕ → List RoomDoc → List (Outcome ChatRepoError RoomDoc)
selecting us [] = []
selecting us (d ∷ ds) =
    let rest = selecting us ds in if names_all us d.participants then good d ∷ rest else rest

-- A query that is answered gives the documents that name all the users, in the order in which they
-- came, and an insertion that succeeds adds the document.
pub record RoomsLaws {C : Type 0} (rooms : Rooms C) : Type 0 where
  pub answered :
      (us : List ℕ) (c : C) (docs : List (Outcome ChatRepoError RoomDoc))
      → rooms.find_all us c ≡ good docs
      → docs ≡ selecting us (rooms.holds c)
  pub added :
      (d : RoomDoc) (c : C)
      → (rooms.insert_one d c).0 ≡ good tt
      → rooms.holds (rooms.insert_one d c).1 ≡ rooms.holds c ++ d ∷ []

-- The loop over the cursor.
unfoldable pub first_same :
    List ℕ → List (Outcome ChatRepoError RoomDoc) → Outcome ChatRepoError (Option ChatRoom)
first_same want [] = good none
first_same want (bad e ∷ docs) = bad e
first_same want (good d ∷ docs) =
    let rest = first_same want docs in
    let room = room_from_doc d in
    if same_set (to_set (ids_of room.participants)) want then good (some room) else rest

module _ {C : Type 0} (rooms : Rooms C) where
  unfoldable pub find_room_by_participants : List ℕ → C → Outcome ChatRepoError (Option ChatRoom)
  find_room_by_participants participants c =
      let want = to_set participants in
      if ltb (length want) 2
      then good none
      else elim (rooms.find_all want c) [ good docs ↦ first_same want docs | bad e ↦ bad e ]

  unfoldable pub create_room : ChatRoom → C → Outcome ChatRepoError (Unit {0}) × C
  create_room room c = rooms.insert_one (room_to_doc room) c

  -- The repository, with any implementation of its other operations.
  abbrev pub mongo : ChatRepository C → ChatRepository C
  mongo others = record others {
    find_room_by_participants = find_room_by_participants;
    create_room = create_room;
  }
