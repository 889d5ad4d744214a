-- ===== src/Chat/Edit.antt =====
-- `edit_message` and `delete_user_messages_in_room_and_broadcast` of websocket/protocol.rs.
pub mod Kept
pub mod Author
use lqxp.Common.{
  ℕ, ◌-◌, ◌/◌, Bool, true, ◌&&◌, ◌||◌, not, Option, none, some, List, [], ◌∷◌, if◌then◌else◌, ◌==◌,
  length, is_empty, contains, is_some, unwrap_or, lookup, adjust, Text, text, text_Eq,
}
use Prim.Native.String.{String}
use lqxp.Common.Chars.{take_chars}
use lqxp.Common.Json.{Json, get_field, str_field, trimmed_field}
use lqxp.Chat.Record.{ChatMessageRecord, EncryptedPayload, is_message_author}
use lqxp.Chat.Encrypted.{parse_encrypted_payload}
use lqxp.Chat.Preview.{find_first_url}
use lqxp.Chat.Messages.{
  Libraries, max_message_chars, message_in, change_message_in, room_mismatch, identified,
}
use lqxp.Room.Decide.{Verdict, allow, refuse}
use lqxp.Room.Acts.{Operation, rate_limited, or_respond, verdict, stop_if, get, update}
use lqxp.Room.Server.{
  Act, and_then, ◌>>=◌, ◌>>◌, done, Server, PlayerSession, Env, Payload, chat_message,
  messages_deleted, edit_ok, respond_to_sender, respond_error, broadcast_to_room, validate_room_id,
}

abbrev edit_limit : Operation
edit_limit = record { op = 29; prefix = "edit_message:session:"; limit = 10; window_ms = 10000 }

-- The message found, if the player may edit it.
accepted : Option ChatMessageRecord → PlayerSession → Verdict ChatMessageRecord
accepted none player = refuse "Unknown messageId"
accepted (some m) player =
    if m.deleted
    then refuse "Message was deleted"
    else if m.system
    then refuse "System messages cannot be edited"
    else if not (is_message_author m.user_id m.username player.user_id player.username)
    then refuse "Only the author can edit this message"
    else allow m

unfoldable pub editable :
    Option (List ChatMessageRecord) → Text → PlayerSession → Verdict ChatMessageRecord
unfolding accepted
editable none message_id player = refuse "Unknown messageId"
editable (some messages) message_id player = accepted (message_in message_id messages) player

unfoldable pub rewritten :
    Text → Option EncryptedPayload → PlayerSession → ℕ → ChatMessageRecord → ChatMessageRecord
rewritten trimmed encrypted player now m = record m {
  body = if is_some encrypted then [] else trimmed;
  profile = player.profile;
  attachment = none;
  encrypted = encrypted;
  preview = none;
  edited_at = some now;
}

module _ (libs : Libraries) (env : Env) where
  edited_text : Json → Text
  unfolding str_field
  edited_text d =
      take_chars max_message_chars (libs.unicode.trim (unwrap_or (str_field d "text") []))

  -- The message is rewritten where it stands, and sent.
  pub edit_found :
      Text → Text → Text → Option EncryptedPayload → PlayerSession → Json → Act (Unit {0})
  unfolding edited_text editable rewritten
  edit_found session_id room_id message_id encrypted player d s =
      let change = rewritten (edited_text d) encrypted player env.now in
      elim (editable (lookup room_id s.room_messages) message_id player) [
        | refuse message ↦ respond_error session_id 29 message s
        | allow m ↦ (
          some tt,
          broadcast_to_room room_id 30 (chat_message (change m))
              (change_message_in room_id message_id change s),
        )
      ]

  -- The address to fetch a preview of.
  unfoldable pub edit_message : Text → Json → Act (Option Text)
  unfolding edited_text edit_found
  edit_message session_id d = do
    over ← rate_limited edit_limit session_id env
    stop_if over session_id 29 "Rate limit exceeded"
    message_id ←
        or_respond session_id 29 (trimmed_field libs.unicode.trim d "messageId") "Missing messageId"
    stop_if (is_empty message_id) session_id 29 "Missing messageId"
    encrypted ←
        verdict session_id 29
          (parse_encrypted_payload libs.unicode.trim libs.to_string (get_field d "encrypted"))
    room_id ← or_respond session_id 29 (trimmed_field libs.unicode.trim d "gameId") "Missing gameId"
    stop_if (room_mismatch encrypted room_id) session_id 29 "Encrypted room mismatch"
    verdict session_id 29 (validate_room_id room_id)
    stop_if (is_some encrypted && not (is_empty (edited_text d))) session_id 29
        "Encrypted edits cannot include plaintext fields"
    stop_if (not (is_some encrypted) && is_empty (edited_text d)) session_id 29 "Empty message"
    s ← get
    player ← or_respond session_id 29 (identified session_id s) "You need to be identified before"
    stop_if (not (contains player.rooms room_id)) session_id 29 "Not a member of this room"
    edit_found session_id room_id message_id encrypted player d
    update (respond_to_sender session_id 29 (edit_ok room_id message_id env.now))
    done (if is_some encrypted then none else find_first_url libs.unicode (edited_text d))

-- One message of a user's is emptied; the record keeps when it was edited.
cleared : ChatMessageRecord → ChatMessageRecord
cleared m = record m {
  body = [];
  attachment = none;
  encrypted = none;
  preview = none;
  reactions = [];
  deleted = true;
}

abbrev is_kept : Text → ChatMessageRecord → Bool
is_kept deleted_by m = m.deleted || not (m.username == deleted_by)

clear_messages : Text → List ChatMessageRecord → List ChatMessageRecord
unfolding cleared
clear_messages deleted_by [] = []
clear_messages deleted_by (m ∷ messages) =
    (if is_kept deleted_by m then m else cleared m) ∷ clear_messages deleted_by messages

cleared_ids : Text → List ChatMessageRecord → List Text
cleared_ids deleted_by [] = []
cleared_ids deleted_by (m ∷ messages) =
    if is_kept deleted_by m
    then cleared_ids deleted_by messages
    else m.message_id ∷ cleared_ids deleted_by messages

ids_in : Text → Option (List ChatMessageRecord) → List Text
unfolding cleared_ids
ids_in deleted_by none = []
ids_in deleted_by (some messages) = cleared_ids deleted_by messages

unfoldable pub delete_user_messages_in_room_and_broadcast :
    Text → Text → ℕ → Server → List Text × Server
unfolding ids_in clear_messages adjust
delete_user_messages_in_room_and_broadcast game_id deleted_by now s =
    let ids = ids_in deleted_by (lookup game_id s.room_messages) in
    let changed = record s {
      room_messages = adjust game_id (clear_messages deleted_by) s.room_messages;
    } in
    if is_empty ids then (ids, changed) else (
      ids,
      broadcast_to_room game_id 25 (messages_deleted game_id deleted_by now (length ids) ids)
          changed,
    )
