-- ===== src/Chat/Edit/Kept.antt =====
-- The stored messages under an edit and the removal of a user's messages.
use lqxp.Common.{
  ℕ, ◌≡◌, refl, sym, ap, ◌∙◌, inl, inr, true, false, Option, none, some, List, [], ◌∷◌, arith,
  Bool-cases, length, is_empty, all, lookup, Text, text_Eq,
}
use lqxp.Common.Json.{Json}
use lqxp.Chat.Record.{ChatMessageRecord, EncryptedPayload, is_message_author}
use lqxp.Chat.Messages.{Libraries, message_in}
use lqxp.Chat.Edit.{
  edit_message, edit_found, edited_text, accepted, editable, rewritten, cleared, clear_messages,
  is_kept, ids_in, delete_user_messages_in_room_and_broadcast,
}
use lqxp.Chat.Keeps.{
  message_ok, room_ok, ChatOk, Keeps, keeping, respond_error-Keeps, broadcast_to_room-ChatOk,
}
use lqxp.Chat.Keeps.Rooms.{change_message_in-ChatOk, rooms_ok-adjust}
use lqxp.Room.Decide.{Verdict-cases, allow}
use lqxp.Room.Server.{Server, Env, PlayerSession, broadcast_to_room}

-- What is edited is not deleted, and is the message stored.
accepted_inv :
    (o : Option ChatMessageRecord) (player : PlayerSession) (m : ChatMessageRecord)
    → accepted o player ≡ allow m
    → (o ≡ some m)
      × (m.deleted ≡ false)
      × (m.system ≡ false)
      × (is_message_author m.user_id m.username player.user_id player.username ≡ true)
unfolding accepted
accepted_inv none player m h = cc
accepted_inv (some n) player m h = ground arith

pub editable_inv :
    (ms : List ChatMessageRecord) (id : Text) (player : PlayerSession) (m : ChatMessageRecord)
    → editable (some ms) id player ≡ allow m
    → (message_in id ms ≡ some m)
      × (m.deleted ≡ false)
      × (m.system ≡ false)
      × (is_message_author m.user_id m.username player.user_id player.username ≡ true)
unfolding editable
editable_inv ms id player m h = accepted_inv (message_in id ms) player m h

some_injective : {n m : ChatMessageRecord} → some n ≡ some m → n ≡ m
some_injective h = cc

rewritten-ok :
    (t : Text) (encrypted : Option EncryptedPayload) (player : PlayerSession) (now : ℕ)
    (m : ChatMessageRecord)
    → m.deleted ≡ false
    → message_ok (rewritten t encrypted player now m) ≡ true
unfolding rewritten message_ok
rewritten-ok t none player now m h = rw h refl
rewritten-ok t (some payload) player now m h = rw h refl

module _ (libs : Libraries) (env : Env) where
  edit_found-Keeps :
      (session_id room_id message_id : Text) (encrypted : Option EncryptedPayload)
      (player : PlayerSession) (d : Json)
      → Keeps (edit_found libs env session_id room_id message_id encrypted player d)
  unfolding edit_found
  edit_found-Keeps session_id room_id message_id encrypted player d = record {
    kept = λ s h.
        elim (Verdict-cases (editable (lookup room_id s.room_messages) message_id player)) [
          | inl (message, q) ↦
              rw (edit_found, q) ((respond_error-Keeps session_id 29 message).kept s h)
          | inr (m, q) ↦
              rw (edit_found, q)
                (broadcast_to_room-ChatOk room_id 30 _ _ (
                  change_message_in-ChatOk room_id message_id
                    (rewritten (edited_text libs env d) encrypted player env.now) s
                    (λ ms n p r k.
                      let (found, live, _, _) =
                        editable_inv ms message_id player m
                          (ap (λ o. editable o message_id player) (sym p) ∙ q) in
                      let same_one : n ≡ m = some_injective (sym r ∙ found) in
                      rewritten-ok (edited_text libs env d) encrypted player env.now n
                        (ap (λ (x : ChatMessageRecord). x.deleted) same_one ∙ live))
                    h))
        ];
  }

  pub edit-Keeps : (session_id : Text) (d : Json) → Keeps (edit_message libs env session_id d)
  unfolding edit_message
  edit-Keeps session_id d = search (keeping, edit_found-Keeps) depth 50

length-clear_messages :
    (username : Text) (ms : List ChatMessageRecord)
    → length (clear_messages username ms) ≡ length ms
unfolding clear_messages
length-clear_messages username [] = refl
length-clear_messages username (m ∷ ms) = omega (arith, length-clear_messages username ms)

all-clear_messages :
    (username : Text) (ms : List ChatMessageRecord)
    → all message_ok ms ≡ true
    → all message_ok (clear_messages username ms) ≡ true
unfolding clear_messages cleared message_ok all
all-clear_messages username [] h = refl
all-clear_messages username (m ∷ ms) h = elim (Bool-cases (is_kept username m)) [
  | inl c ↦ rw (clear_messages, c) (ground (arith, all-clear_messages username ms))
  | inr c ↦ rw (clear_messages, c) (ground (arith, all-clear_messages username ms))
]

cleared-ok :
    (username : Text) (ms : List ChatMessageRecord)
    → room_ok ms ≡ true
    → room_ok (clear_messages username ms) ≡ true
unfolding room_ok
cleared-ok username ms h =
    ground (arith, length-clear_messages username ms, all-clear_messages username ms)

pub forget_user-ChatOk :
    (room_id username : Text) (now : ℕ) (s : Server)
    → ChatOk s
    → ChatOk (delete_user_messages_in_room_and_broadcast room_id username now s).1
unfolding delete_user_messages_in_room_and_broadcast broadcast_to_room
forget_user-ChatOk room_id username now s h =
    let next =
      rooms_ok-adjust room_id (clear_messages username) s.room_messages
        (λ ms q. cleared-ok username ms) h in
    elim (Bool-cases (is_empty (ids_in username (lookup room_id s.room_messages)))) [
      | inl c ↦ rw (delete_user_messages_in_room_and_broadcast, c) next
      | inr c ↦ rw (delete_user_messages_in_room_and_broadcast, c) next
    ]
