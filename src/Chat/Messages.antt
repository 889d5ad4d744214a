-- ===== src/Chat/Messages.antt =====
-- The stored messages of a room, and what the operations on them share.
use lqxp.Common.{
  ℕ, ◌+◌, ◌-◌, ◌%◌, ◌^◌, Bool, false, ◌&&◌, not, Option, none, some, List, [], ◌∷◌, ◌++◌,
  if◌then◌else◌, ◌==◌, length, is_empty, drop, Assoc, is_some, lookup, insert, contains_key, adjust,
  Text, text_Eq,
}
use lqxp.Common.Json.{Json}
use lqxp.Chat.Record.{ChatMessageRecord, EncryptedPayload}
use lqxp.Room.Record.{RoomRecord, is_community, can_speak}
use lqxp.Room.Server.{Server, PlayerSession, Env, room_record}
use lqxp.Account.Names.{Unicode}

abbrev pub max_room_messages : ℕ
max_room_messages = 150

abbrev pub max_message_chars : ℕ
max_message_chars = 2000

-- The libraries that the handlers call: the standard library on Unicode, `serde_json`'s printer and
-- the base64 decoder.
pub record Libraries : Type 0 where
  pub unicode : Unicode
  pub to_string : Json → Text
  pub b64_decode : Text → Option Text

-- `iter().find(|m| m.message_id == message_id)`
unfoldable pub message_in : Text → List ChatMessageRecord → Option ChatMessageRecord
message_in message_id [] = none
message_in message_id (m ∷ messages) =
    if m.message_id == message_id then some m else message_in message_id messages

-- A change of that message.
unfoldable pub change_message :
    Text → (ChatMessageRecord → ChatMessageRecord) → List ChatMessageRecord → List ChatMessageRecord
change_message message_id f [] = []
change_message message_id f (m ∷ messages) =
    if m.message_id == message_id then f m ∷ messages else m ∷ change_message message_id f messages

unfoldable pub change_message_in :
    Text → Text → (ChatMessageRecord → ChatMessageRecord) → Server → Server
unfolding change_message adjust
change_message_in room_id message_id f s = record s {
  room_messages = adjust room_id (change_message message_id f) s.room_messages;
}

unfoldable pub has_message : Text → List ChatMessageRecord → Bool
unfolding message_in
has_message message_id messages = is_some (message_in message_id messages)

-- The first room with a message.
unfoldable pub room_with :
    (Text → List ChatMessageRecord → Bool) → Assoc Text (List ChatMessageRecord) → Option Text
room_with p [] = none
room_with p ((room_id, messages) ∷ rooms) =
    if p room_id messages then some room_id else room_with p rooms

-- `store_room_message`
unfoldable pub pushed : ChatMessageRecord → List ChatMessageRecord → List ChatMessageRecord
pushed message room = let room = room ++ message ∷ [] in drop (length room - max_room_messages) room

unfoldable pub store_room_message : Text → ChatMessageRecord → Server → Server
unfolding pushed adjust contains_key insert
store_room_message room_id message s = record s {
  messages_relayed = (s.messages_relayed + 1) % 2 ^ 64;
  room_messages =
      if contains_key room_id s.room_messages
      then adjust room_id (pushed message) s.room_messages
      else insert room_id (pushed message []) s.room_messages;
}

-- The room named inside the encrypted payload is another one.
unfoldable pub room_mismatch : Option EncryptedPayload → Text → Bool
room_mismatch none game_id = false
room_mismatch (some payload) game_id = elim payload.room_id [
  | none ↦ false
  | some room ↦ not (room == game_id)
]

-- The session's player, if it has a name.
named_player : Option PlayerSession → Option PlayerSession
named_player none = none
named_player (some player) = if is_empty player.username then none else some player

unfoldable pub identified : Text → Server → Option PlayerSession
unfolding named_player lookup
identified session_id s = named_player (lookup session_id s.players)

-- A community room where the user may not speak; a room that cannot be read refuses nobody.
silenced_in : Option RoomRecord → Text → ℕ → Bool
silenced_in none user_id now = false
silenced_in (some room) user_id now = is_community room.kind && not (can_speak room user_id now)

unfoldable pub is_silenced : Env → Text → Text → Server → Bool
unfolding silenced_in
is_silenced env room_id user_id s = silenced_in (room_record env.read_ok room_id s) user_id env.now
