-- ===== src/Chat/Amend.antt =====
-- `toggle_message_reaction` and `delete_message` of websocket/protocol.rs.
pub mod Authors
pub mod Kept
use lqxp.Common.{
  ℕ, ◌-◌, ◌/◌, Bool, true, false, ◌&&◌, ◌||◌, not, Option, none, some, List, [], ◌∷◌, ltb,
  if◌then◌else◌, is_empty, any, all, contains, Assoc, lookup, remove, Text, text_Eq,
}
use Prim.Native.String.{String}
use lqxp.Common.Chars.{chars, take_chars, char_count}
use lqxp.Common.Json.{Json, get_field, str_field, trimmed_field, nonempty}
use lqxp.Chat.Record.{
  ChatMessageRecord, EncryptedPayload, Attachment, MessageReaction, is_message_author,
}
use lqxp.Chat.Reactions.{toggle_reaction}
use lqxp.Chat.Encrypted.{parse_encrypted_payload}
use lqxp.Chat.Preview.{find_first_url}
use lqxp.Chat.Messages.{
  Libraries, max_message_chars, message_in, change_message, change_message_in, has_message,
  room_with, room_mismatch, identified, is_silenced,
}
use lqxp.Room.Record.{
  RoomRecord, RoomRole, member, moderator, sub_administrator, administrator, is_community,
  role_in_room, role_eq,
}
use lqxp.Room.Decide.{Verdict, allow, refuse}
use lqxp.Room.Acts.{Operation, rate_limited, or_respond, verdict, stop_if, get, update}
use lqxp.Room.Server.{
  Act, and_then, ◌>>=◌, ◌>>◌, done, Server, PlayerSession, Env, Payload, chat_message, message_ok,
  message_reactions, message_deleted, messages_deleted, edit_ok, respond_to_sender, respond_error,
  broadcast_to_room, room_record, validate_room_id,
}
use lqxp.Account.Names.{Unicode}
use lqxp.Account.Files.{upload_is_live}

abbrev pub max_reaction_emoji_chars : ℕ
max_reaction_emoji_chars = 32

unfoldable pub sanitize_reaction_emoji : Unicode → Text → Option Text
sanitize_reaction_emoji u value =
    let trimmed = u.trim value in
    if is_empty trimmed || ltb max_reaction_emoji_chars (char_count trimmed)
    then none
    else if any (λ ch. u.is_control ch || u.is_whitespace ch) (chars trimmed)
    then none
    else some trimmed

abbrev reaction_limit : Operation
reaction_limit = record { op = 19; prefix = "reaction:session:"; limit = 15; window_ms = 5000 }

sanitized : Unicode → Option Text → Verdict Text
unfolding sanitize_reaction_emoji
sanitized u none = refuse "Missing reaction"
sanitized u (some raw) = elim (sanitize_reaction_emoji u raw) [
  | none ↦ refuse "Invalid reaction"
  | some e ↦ allow e
]

-- The room of the hint, if it has the message, or the first room that has it.
unfoldable pub message_room : Option Text → Text → Assoc Text (List ChatMessageRecord) → Option Text
unfolding has_message room_with
message_room (some hint) message_id rooms = elim (lookup hint rooms) [
  | none ↦ none
  | some messages ↦ if has_message message_id messages then some hint else none
]
message_room none message_id rooms =
    room_with (λ room_id messages. has_message message_id messages) rooms

reactions_of : Option (List ChatMessageRecord) → Text → Option (List MessageReaction)
reactions_of none message_id = none
reactions_of (some messages) message_id = elim (message_in message_id messages) [
  | none ↦ none
  | some m ↦ some m.reactions
]

abbrev toggled : Text → Text → ChatMessageRecord → ChatMessageRecord
toggled emoji username m = record m { reactions = toggle_reaction emoji username m.reactions }

-- `update_message_reactions` once the room is known.
unfoldable pub update_message_reactions :
    Text → Text → Text → Text → Server → Option (List MessageReaction) × Server
unfolding reactions_of
update_message_reactions room_id message_id emoji username s =
    let changed = change_message_in room_id message_id (toggled emoji username) s in
    (reactions_of (lookup room_id changed.room_messages) message_id, changed)

module _ (u : Unicode) (env : Env) where
  unfoldable pub toggle_message_reaction : Text → Json → Act (Unit {0})
  unfolding sanitized message_room update_message_reactions
  toggle_message_reaction session_id d = do
    over ← rate_limited reaction_limit session_id env
    stop_if over session_id 19 "Rate limit exceeded"
    message_id ← or_respond session_id 19 (trimmed_field u.trim d "messageId") "Missing messageId"
    emoji ← verdict session_id 19 (sanitized u (str_field d "reaction"))
    s ← get
    player ← or_respond session_id 19 (identified session_id s) "You need to be identified before"
    room_id ←
        or_respond session_id 19
          (message_room (nonempty (trimmed_field u.trim d "gameId")) message_id s.room_messages)
          "Unknown messageId"
    stop_if (not (contains player.rooms room_id)) session_id 19 "Not a member of this room"
    stop_if (is_silenced env room_id player.user_id s) session_id 19
        "You are not allowed to speak in this room"
    changed ← (λ s.
        let (r, t) = update_message_reactions room_id message_id emoji player.username s in
        (some r, t))
    reactions ← or_respond session_id 19 changed "Unknown messageId"
    update (broadcast_to_room room_id 20 (message_reactions room_id message_id reactions))
    update (respond_to_sender session_id 19 (message_ok message_id))

-- The first room that has the message, and the message: the rooms are the hint, or all of them.
found_in :
    List Text → Text → Assoc Text (List ChatMessageRecord) → Option (Text × ChatMessageRecord)
found_in [] message_id rooms = none
found_in (room_id ∷ room_ids) message_id rooms =
    let later = found_in room_ids message_id rooms in
    elim (lookup room_id rooms) [
      | none ↦ later
      | some messages ↦ elim (message_in message_id messages) [
        | none ↦ later
        | some m ↦ some (room_id, m)
      ]
    ]

keys : Assoc Text (List ChatMessageRecord) → List Text
keys [] = []
keys ((room_id, messages) ∷ rooms) = room_id ∷ keys rooms

unfoldable pub find_to_delete :
    Option Text → Text → Assoc Text (List ChatMessageRecord) → Option (Text × ChatMessageRecord)
unfolding found_in keys
find_to_delete (some hint) message_id rooms = found_in (hint ∷ []) message_id rooms
find_to_delete none message_id rooms = found_in (keys rooms) message_id rooms

-- Whether a role may delete what an author with another role wrote.
unfoldable pub moderates : RoomRecord → RoomRole → RoomRole → Bool
moderates room administrator author = true
moderates room sub_administrator author = role_eq author member || role_eq author moderator
moderates room moderator author = room.mod_permissions.can_delete && role_eq author member
moderates room member author = false

-- Whether the message may be deleted, and whether as a moderator.
unfoldable pub may_delete : Option RoomRecord → PlayerSession → ChatMessageRecord → Bool × Bool
unfolding moderates
may_delete none player m = (
  player.is_admin || is_message_author m.user_id m.username player.user_id player.username,
  false,
)
may_delete (some room) player m =
    let is_author = is_message_author m.user_id m.username player.user_id player.username in
    let allowed = moderates room (role_in_room room player.user_id) (role_in_room room m.user_id) in
    if is_community room.kind
    then (is_author || allowed, not is_author && allowed)
    else (player.is_admin || is_author, false)

unfoldable pub emptied : Text → Bool → ChatMessageRecord → ChatMessageRecord
emptied username by_moderator m = record m {
  body = [];
  attachment = none;
  encrypted = none;
  preview = none;
  reactions = [];
  edited_at = none;
  deleted = true;
  deleted_by = username;
  deleted_by_moderator = by_moderator;
}

-- The file of a deleted message goes unless it is shown elsewhere; a file's identifier is its name.
unfoldable pub drop_upload : Option Attachment → Bool → Bool → Server → Server
drop_upload none in_profile in_icon s = s
drop_upload (some att) in_profile in_icon s =
    if upload_is_live att.id s.room_messages in_profile in_icon
    then s
    else record s { uploads = remove att.id s.uploads }

abbrev delete_limit : Operation
delete_limit = record { op = 21; prefix = "delete_message:session:"; limit = 10; window_ms = 10000 }

module _ (u : Unicode) (env : Env) (in_profile in_icon : Bool) where
  -- The message is emptied and the members are told, if it was not deleted already.
  delete_found : Text → PlayerSession → Text → Text → ChatMessageRecord → Act (Unit {0})
  unfolding emptied
  delete_found session_id player room_id message_id m s =
      let (can_delete, by_moderator) = may_delete (room_record env.read_ok room_id s) player m in
      let changed = change_message_in room_id message_id (emptied player.username by_moderator) s in
      if m.deleted
      then (some tt, s)
      else if not can_delete
      then respond_error session_id 21 "You are not allowed to delete this message" s
      else (
        some tt,
        broadcast_to_room room_id 22
            (message_deleted room_id message_id player.username by_moderator env.now) changed,
      )

  unfoldable pub delete_message : Text → Json → Act (Unit {0})
  unfolding delete_found
  delete_message session_id d = do
    over ← rate_limited delete_limit session_id env
    stop_if over session_id 21 "Rate limit exceeded"
    message_id ← or_respond session_id 21 (trimmed_field u.trim d "messageId") "Missing messageId"
    stop_if (is_empty message_id) session_id 21 "Missing messageId"
    s ← get
    player ← or_respond session_id 21 (identified session_id s) "You need to be identified before"
    (room_id, m) ←
        or_respond session_id 21
          (find_to_delete (nonempty (trimmed_field u.trim d "gameId")) message_id s.room_messages)
          "Unknown messageId"
    delete_found session_id player room_id message_id m
    update (respond_to_sender session_id 21 (message_ok message_id))
    update (if m.deleted then (λ s. s) else drop_upload m.attachment in_profile in_icon)
