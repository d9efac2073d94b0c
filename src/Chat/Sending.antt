-- ===== src/Chat/Sending.antt =====
-- Who may send what: `send_message` of crates/application/src/chat.rs.
use kokkeak_api.Prelude.{
  ℕ, ◌≡◌, false, refl, none, some, true, String, Option, ◌⊎◌, arith, ◌≤◌, inl, inr, Bool-cases, ◌∙◌,
  ap, List, [], ◌∷◌, ◌++◌, ◌==◌, ◌↔◌,
}
use kokkeak_api.Effect.{Outcome, good, bad, Method}
use kokkeak_api.Chat.{ChatService, send_message, send_to, len, store, new_message}
use kokkeak_api.Chat.Types.{
  ChatRepoError, ChatRoom, contains, ChatError, ChatMessage, repo_err, room_not_found, Participant,
  any_user,
}
use kokkeak_api.Text.{is_empty, trim}

-- The user is one of the participants.
abbrev pub Participates : ℕ → ChatRoom → Type 0
Participates user_id room =
    (before : List Participant) × (p : Participant) × (after : List Participant)
    × (room.participants ≡ before ++ p ∷ after)
    × (p.user_id ≡ user_id)

user_among :
    (user_id : ℕ) (ps : List Participant)
    → any_user user_id ps ≡ true
    → (before : List Participant) × (p : Participant) × (after : List Participant) × (ps
        ≡ before ++ p ∷ after)
      × (p.user_id ≡ user_id)
user_among user_id [] h = ground arith
user_among user_id (q ∷ qs) h = elim (Bool-cases (q.user_id == user_id)) [
  | inl here ↦ ([], q, qs, refl, ground arith)
  | inr other ↦
      let (before, p, after, split, is_user) = user_among user_id qs (ground arith) in
      (q ∷ before, p, after, ap (q ∷◌) split, is_user)
]

any_user-among :
    (user_id : ℕ) (before : List Participant) (p : Participant) (after : List Participant)
    → p.user_id ≡ user_id
    → any_user user_id (before ++ p ∷ after) ≡ true
any_user-among user_id [] p after h = ground arith
any_user-among user_id (q ∷ before) p after h =
    ground (arith, any_user-among user_id before p after h)

contains-Participates :
    (room : ChatRoom) (user_id : ℕ) → (contains room user_id ≡ true) ↔ Participates user_id room
unfolding contains
contains-Participates room user_id = (
  λ h. user_among user_id room.participants h,
  λ (before, p, after, split, is_user). rw split (any_user-among user_id before p after is_user),
)

module _ {W T : Type 0} (sv : ChatService W T) where
  -- All that `send_message` asks of a message.
  pub record MaySend (room_id sender_id : ℕ) (body : String) (st : W × T) : Type 0 where
    pub room : ChatRoom
    pub found : sv.repo.find_room room_id st.0 ≡ good (some room)
    pub member : Participates sender_id room
    pub written : is_empty (trim body) ≡ false
    pub short : len body ≤ 4000

  send_to_member :
      (now id room_id sender_id : ℕ) (body : String) (room : ChatRoom) (st : W × T)
      → contains room sender_id ≡ true
      → send_to sv now id room_id sender_id body room st
        ≡ store sv (new_message now id room_id sender_id body) st
  unfolding send_to
  send_to_member now id room_id sender_id body room st h = ground arith

  abbrev to_found :
      Outcome ChatRepoError (Option ChatRoom)
      → ℕ
      → ℕ
      → ℕ
      → ℕ
      → String
      → Method ChatError (W × T) ChatMessage
  to_found (bad e) now id room_id sender_id body st = (bad (repo_err e), st)
  to_found (good none) now id room_id sender_id body st = (bad (room_not_found room_id), st)
  to_found (good (some room)) now id room_id sender_id body st =
      send_to sv now id room_id sender_id body room st

  -- A text that is not refused is sent to the room, if there is one.
  send_message-eq-search :
      (now id room_id sender_id : ℕ) (body : String) (st : W × T)
      → is_empty (trim body) ≡ false
      → len body ≤ 4000
      → send_message sv now id room_id sender_id body st
        ≡ to_found (sv.repo.find_room room_id st.0) now id room_id sender_id body st
  unfolding send_message
  send_message-eq-search now id room_id sender_id body st written short =
      by_room (sv.repo.find_room room_id st.0) refl
    where
      by_room :
          (a : Outcome ChatRepoError (Option ChatRoom))
          → sv.repo.find_room room_id st.0 ≡ a
          → send_message sv now id room_id sender_id body st
            ≡ to_found a now id room_id sender_id body st
      by_room (bad e) found = ground arith
      by_room (good none) found = ground arith
      by_room (good (some room)) found = ground arith

  -- The message is handed on, with its sender, room, time and body, or refused with nothing written.
  abbrev pub Sent : ℕ → ℕ → ℕ → ℕ → String → W × T → Type 0
  Sent now id room_id sender_id body st =
      ((e : ChatError) × (send_message sv now id room_id sender_id body st ≡ (bad e, st)))
      ⊎ (MaySend room_id sender_id body st
          × (m : ChatMessage) × (m.id ≡ id)
          × (m.room_id ≡ room_id)
          × (m.sender_id ≡ sender_id)
          × (m.body ≡ body)
          × (m.sent_at ≡ now)
          × (m.read_by ≡ [])
          × (send_message sv now id room_id sender_id body st ≡ store sv m st))

  store_untouched :
      (m : ChatMessage) (st : W × T) (e : ChatRepoError)
      → (sv.repo.insert_message m st.0).0 ≡ good tt
      → (sv.repo.touch_room m.room_id m.sent_at (sv.repo.insert_message m st.0).1).0 ≡ bad e
      → store sv m st ≡ (
        bad (repo_err e),
        ((sv.repo.touch_room m.room_id m.sent_at (sv.repo.insert_message m st.0).1).1, st.1),
      )
  unfolding store
  store_untouched m st e stored untouched = ground arith

  -- A message is stored although its sender gets an error: when the repository takes the message and
  -- then fails to move the room's time, nothing takes the message back and the transport hears nothing.
  pub stored_with_error :
      (now id room_id sender_id : ℕ) (body : String) (st : W × T) (e : ChatRepoError)
      → MaySend room_id sender_id body st
      → (sv.repo.insert_message (new_message now id room_id sender_id body) st.0).0 ≡ good tt
      → (sv.repo.touch_room room_id now
          (sv.repo.insert_message (new_message now id room_id sender_id body) st.0).1).0
        ≡ bad e
      → send_message sv now id room_id sender_id body st ≡ (
        bad (repo_err e),
        (
          (sv.repo.touch_room room_id now
              (sv.repo.insert_message (new_message now id room_id sender_id body) st.0).1).1,
          st.1,
        ),
      )
  unfolding store
  stored_with_error now id room_id sender_id body st e may stored untouched =
      send_message-eq-search now id room_id sender_id body st may.written may.short
      ∙ ap (λ a. to_found a now id room_id sender_id body st) may.found
      ∙ send_to_member now id room_id sender_id body may.room st
          ((contains-Participates may.room sender_id).1 may.member)
      ∙ store_untouched (new_message now id room_id sender_id body) st e stored untouched
