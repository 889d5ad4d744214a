-- ===== src/Chat/Edit/Author.antt =====
-- The author of a message and its edits.
use lqxp.Common.{
  ◌≡◌, refl, sym, ap, ◌∙◌, ◌⊎◌, inl, inr, true, false, Option, none, some, List, [], ◌∷◌, arith,
  Bool-cases, Option-cases, ◌==◌, eq_law, lookup, contains_key, adjust, lookup-adjust, Text,
  text_Eq,
}
use Prim.Native.String.{String}
use lqxp.Common.Json.{Json}
use lqxp.Chat.Record.{ChatMessageRecord, EncryptedPayload, is_message_author}
use lqxp.Chat.Messages.{Libraries, message_in, change_message, change_message_in}
use lqxp.Chat.Edit.{edit_found, edited_text, editable, rewritten}
use lqxp.Room.Decide.{Verdict-cases}
use lqxp.Chat.Edit.Kept.{editable_inv}
use lqxp.Room.Server.{
  Server, Env, PlayerSession, respond_error, respond_to_sender, broadcast_to_room,
}

-- The message with an identifier in a room, if there is one.
unfoldable pub message_at : Text → Text → Server → Option ChatMessageRecord
unfolding message_in lookup
message_at room_id id s = elim (lookup room_id s.room_messages) [
  | none ↦ none
  | some ms ↦ message_in id ms
]

message_in-change_message :
    (id other : Text) (f : ChatMessageRecord → ChatMessageRecord) (ms : List ChatMessageRecord)
    → ((m : ChatMessageRecord) → (f m).message_id ≡ m.message_id)
    → (id == other) ≡ false
    → message_in other (change_message id f ms) ≡ message_in other ms
unfolding message_in change_message
message_in-change_message id other f [] k h = refl
message_in-change_message id other f (m ∷ ms) k h = ground (
  arith,
  k m,
  eq_law m.message_id id,
  eq_law m.message_id other,
  eq_law (f m).message_id other,
  message_in-change_message id other f ms k h,
)

message_at-change :
    (room_id id : Text) (f : ChatMessageRecord → ChatMessageRecord) (s : Server)
    (ms : List ChatMessageRecord)
    → ((m : ChatMessageRecord) → (f m).message_id ≡ m.message_id)
    → lookup room_id s.room_messages ≡ some ms
    → (room other : Text) → (id == other) ≡ false
    → message_at room other (change_message_in room_id id f s) ≡ message_at room other s
unfolding message_at change_message_in
message_at-change room_id id f s ms k there room other h =
    let read = lookup-adjust room_id room (change_message id f) ms s.room_messages there in
    elim (Bool-cases (room_id == room)) [
      | inl e ↦
          let same_room : room_id ≡ room = (eq_law room_id room).0 e in
          let there_too : lookup room s.room_messages ≡ some ms =
            ap (λ r. lookup r s.room_messages) (sym same_room) ∙ there in
          let now : lookup room (adjust room_id (change_message id f) s.room_messages)
              ≡ some (change_message id f ms) =
            read ∙ rw e refl in
          rw (message_at, now, there_too) (message_in-change_message id other f ms k h)
      | inr e ↦
          let now : lookup room (adjust room_id (change_message id f) s.room_messages)
              ≡ lookup room s.room_messages =
            read ∙ rw e refl in
          rw (message_at, now) refl
    ]

module _ (libs : Libraries) (env : Env) where
  unchanged :
      (session_id : Text) (message : String) (s : Server)
      → (respond_error {A = Unit {0}} session_id 29 message s).1.room_messages ≡ s.room_messages
  unfolding respond_error respond_to_sender
  unchanged session_id message s = elim (Bool-cases (contains_key session_id s.players)) [
    | inl h ↦ rw h refl
    | inr h ↦ rw h refl
  ]

  -- What an edit by a player does to the messages.
  abbrev pub OnlyOwnEdited :
      Text → Text → Text → Option EncryptedPayload → PlayerSession → Json → Server → Type 0
  OnlyOwnEdited session_id room_id message_id encrypted player d s =
      ((edit_found libs env session_id room_id message_id encrypted player d s).1.room_messages
        ≡ s.room_messages)
      ⊎ ((m : ChatMessageRecord) × (message_at room_id message_id s ≡ some m)
          × (m.deleted ≡ false)
          × (m.system ≡ false)
          × (is_message_author m.user_id m.username player.user_id player.username ≡ true)
          × ((room other : Text)
              → (message_id == other) ≡ false
              → message_at room other
                  (edit_found libs env session_id room_id message_id encrypted player d s).1
                ≡ message_at room other s))

  -- An edit by a player either leaves every message as it is, or the message is there, is neither
  -- deleted nor the system's and is the player's own; then the messages with other identifiers
  -- stay as they are in every room.
  pub edit_found_author :
      (session_id room_id message_id : Text) (encrypted : Option EncryptedPayload)
      (player : PlayerSession) (d : Json) (s : Server)
      → OnlyOwnEdited session_id room_id message_id encrypted player d s
  unfolding edit_found message_at broadcast_to_room editable rewritten
  edit_found_author session_id room_id message_id encrypted player d s =
      elim (Option-cases (lookup room_id s.room_messages)) [
        | inl none_ ↦ inl (rw (edit_found, none_) (unchanged session_id _ s))
        | inr (ms, there) ↦ elim (Verdict-cases (editable (some ms) message_id player)) [
          | inl (message, q) ↦ inl (rw (edit_found, there, q) (unchanged session_id message s))
          | inr (m, q) ↦
              let (found, live, own, author) = editable_inv ms message_id player m q in
              inr (
                m,
                rw (message_at, there) found,
                live,
                own,
                author,
                λ room other h.
                    rw (edit_found, there, q)
                      (message_at-change room_id message_id
                        (rewritten (edited_text libs env d) encrypted player env.now) s ms
                        (λ n. refl) there room other h),
              )
        ]
      ]
