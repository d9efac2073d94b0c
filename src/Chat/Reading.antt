-- ===== src/Chat/Reading.antt =====
-- Who may read a room: `list_messages` and `mark_read` of crates/application/src/chat.rs.
use kokkeak_api.Prelude.{ℕ, ◌≡◌, false, true, Option, List, arith, ◌≤◌, refl, inl, inr, Bool-cases}
use kokkeak_api.Effect.{good, bad, Outcome}
use kokkeak_api.Chat.{ChatService, is_participant, list_messages, mark_read, clamp, member}
use kokkeak_api.Chat.Types.{ChatRoom, ChatMessage, not_participant, ChatRepoError}
use kokkeak_api.User.{User}

module _ {W T : Type 0} (sv : ChatService W T) where
  is_participant-eq-good :
      (room_id user_id : ℕ) (o : Option ChatRoom) (st : W × T)
      → sv.repo.find_room room_id st.0 ≡ good o
      → is_participant sv room_id user_id st ≡ (good (member sv user_id o), st)
  unfolding is_participant
  is_participant-eq-good room_id user_id o st found = ground arith

  listed_for_member :
      (room_id limit : ℕ) (user : User) (before : Option ℕ) (st st' : W × T)
      (messages : List ChatMessage) (o : Option ChatRoom)
      → is_participant sv room_id user.id st ≡ (good (member sv user.id o), st)
      → member sv user.id o ≡ true
      → list_messages sv room_id user before limit st ≡ (good messages, st')
      → sv.repo.list_messages room_id (record { limit = clamp 1 200 limit; before = before }) st.0
        ≡ good messages
  unfolding list_messages
  listed_for_member room_id limit user before st st' messages o known allowed listed =
      by_answer
        (sv.repo.list_messages room_id (record { limit = clamp 1 200 limit; before = before }) st.0)
        refl
    where
      by_answer :
          (a : Outcome ChatRepoError (List ChatMessage))
          → sv.repo.list_messages room_id
              (record { limit = clamp 1 200 limit; before = before })
              st.0
            ≡ a
          → sv.repo.list_messages room_id
              (record { limit = clamp 1 200 limit; before = before })
              st.0
            ≡ good messages
      by_answer (bad e) answered = ground arith
      by_answer (good ms) answered = ground arith

  -- Messages that are listed are what the repository listed for a page of at most 200.
  pub list_messages-eq-good :
      (room_id limit : ℕ) (user : User) (before : Option ℕ) (st st' : W × T)
      (messages : List ChatMessage)
      → list_messages sv room_id user before limit st ≡ (good messages, st')
      → sv.repo.list_messages room_id (record { limit = clamp 1 200 limit; before = before }) st.0
        ≡ good messages
  unfolding list_messages is_participant
  list_messages-eq-good room_id limit user before st st' messages listed =
      by_room (sv.repo.find_room room_id st.0) refl
    where
      by_room :
          (a : Outcome ChatRepoError (Option ChatRoom))
          → sv.repo.find_room room_id st.0 ≡ a
          → sv.repo.list_messages room_id
              (record { limit = clamp 1 200 limit; before = before })
              st.0
            ≡ good messages
      by_room (bad e) found = ground arith
      by_room (good o) found =
          let known = is_participant-eq-good room_id user.id o st found in
          elim (Bool-cases (member sv user.id o)) [
            | inl allowed ↦
                listed_for_member room_id limit user before st st' messages o known allowed listed
            | inr refused ↦ ground arith
          ]

  -- A user who is no participant of the room, or asks for a room that is not there, reads no message
  -- of it and marks none as read: both calls give `NotParticipant`, and nothing is written. A
  -- participant gets what the repository lists for a page of between 1 and 200 messages.
  read_by_member :
      (now room_id limit : ℕ) (user : User) (before : Option ℕ) (o : Option ChatRoom) (st : W × T)
      (messages : List ChatMessage)
      → sv.repo.find_room room_id st.0 ≡ good o
      → (member sv user.id o ≡ false
          → (list_messages sv room_id user before limit st ≡ (bad (not_participant room_id), st))
            × (mark_read sv now room_id user st ≡ (bad (not_participant room_id), st)))
        × (member sv user.id o ≡ true
            → (page : ℕ) × (1 ≤ page)
              × (page ≤ 200)
              × (sv.repo.list_messages room_id (record { limit = page; before = before }) st.0
                    ≡ good messages
                  → list_messages sv room_id user before limit st ≡ (good messages, st)))
  unfolding list_messages mark_read
  read_by_member now room_id limit user before o st messages found =
      let known = is_participant-eq-good room_id user.id o st found in
      (
        λ stranger. (ground arith, ground arith),
        λ allowed. (clamp 1 200 limit, omega arith, omega arith, λ listed. ground arith),
      )
