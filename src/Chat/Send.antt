-- ===== src/Chat/Send.antt =====
-- `send_chat_message` of websocket/protocol.rs.
pub mod Spacing
pub mod Kept
use lqxp.Common.{
  ℕ, ◌+◌, ◌-◌, ◌/◌, false, ◌&&◌, ◌||◌, not, Option, none, some, [], ◌∷◌, ◌++◌, ltb, if◌then◌else◌,
  ◌==◌, is_empty, contains, is_some, unwrap_or, lookup, adjust, Text, text, decimal, text_Eq,
}
use Prim.Native.String.{String}
use lqxp.Common.Chars.{take_chars}
use lqxp.Common.Json.{Json, get_field, str_field, trimmed_field, nonempty}
use lqxp.Chat.Record.{ChatMessageRecord, EncryptedPayload, Attachment}
use lqxp.Chat.Encrypted.{parse_encrypted_payload}
use lqxp.Chat.Attachment.{parse_attachment}
use lqxp.Chat.Preview.{find_first_url}
use lqxp.Chat.Messages.{
  Libraries, max_message_chars, store_room_message, room_mismatch, is_silenced,
}
use lqxp.Room.Decide.{Verdict, allow, refuse}
use lqxp.Room.Acts.{Operation, rate_limited, or_respond, verdict, stop_if, get, update}
use lqxp.Room.Server.{
  Act, and_then, ◌>>=◌, ◌>>◌, done, Server, PlayerSession, Env, Payload, error_text, error_message,
  chat_message, message_ok, respond_to_sender, respond_error, broadcast_to_room, validate_room_id,
}
use lqxp.Account.Files.{Disk}

abbrev pub min_between_message_interval : ℕ
min_between_message_interval = 400

abbrev chat_limit : Operation
chat_limit = record { op = 7; prefix = "chat:session:"; limit = 15; window_ms = 10000 }

-- Whether the last message of a player is too near; the time since then.
unfoldable pub too_soon : Option ℕ → ℕ → Option ℕ
too_soon none now = none
too_soon (some last) now =
    if ltb (now - last) min_between_message_interval then some (now - last) else none

unfoldable pub wait_message : ℕ → Text
unfolding text
wait_message elapsed =
    text "You need to wait " ++ decimal elapsed ++ text "ms until the next message"

mark_sent : Text → ℕ → Server → Server
unfolding adjust
mark_sent session_id now s = record s {
  players =
      adjust session_id (λ player. record player { last_message_timestamp = some now }) s.players;
}

-- Why a player may not send now.
refusal : PlayerSession → Text → ℕ → Option Payload
unfolding too_soon wait_message
refusal player game_id now =
    if is_empty player.username
    then some (error_text "You need to be identified before sending message")
    else if not (contains player.rooms game_id)
    then some (error_text "Not a member of this room")
    else elim (too_soon player.last_message_timestamp now) [
      | some elapsed ↦ some (error_message (wait_message elapsed))
      | none ↦ none
    ]

take_turn_as : Option PlayerSession → Text → Text → ℕ → Act PlayerSession
unfolding refusal mark_sent
take_turn_as none session_id game_id now s =
    respond_error session_id 7 "You need to be identified before sending message" s
take_turn_as (some player) session_id game_id now s = elim (refusal player game_id now) [
  | some payload ↦ (none, respond_to_sender session_id 7 payload s)
  | none ↦ (some player, mark_sent session_id now s)
]

-- The player who may send now, with the time noted.
unfoldable pub take_turn : Text → Text → ℕ → Act PlayerSession
unfolding take_turn_as
take_turn session_id game_id now s =
    take_turn_as (lookup session_id s.players) session_id game_id now s

shorten : ℕ → Option Text → Option Text
shorten n none = none
shorten n (some s) = some (take_chars n s)

module _ (libs : Libraries) (disk : Disk) (env : Env) where
  attach : Text → Json → Act (Option Attachment)
  unfolding parse_attachment
  attach session_id d s =
      let (result, uploads) = parse_attachment libs disk (get_field d "attachment") s.uploads in
      verdict session_id 7 result (record s { uploads = uploads })

  trimmed_text : Json → Text
  unfolding str_field
  trimmed_text d =
      take_chars max_message_chars (libs.unicode.trim (unwrap_or (str_field d "text") []))

  -- `message_id` is the fresh identifier.
  new_message :
      Text
      → Text
      → PlayerSession
      → Json
      → Option Attachment
      → Option EncryptedPayload
      → ChatMessageRecord
  unfolding trimmed_text shorten nonempty trimmed_field text
  new_message message_id room_id player d attachment encrypted = record {
    message_id = message_id;
    room_id = room_id;
    user =
        (if room_id == text "lobby" then text "[lobby]" else text "[in-game]")
        ++ b' ' ∷ player.username;
    username = player.username;
    user_id = player.user_id;
    body = if is_some encrypted then [] else trimmed_text d;
    timestamp = env.now;
    profile = player.profile;
    edited_at = none;
    system = false;
    reactions = [];
    reply_to_message_id =
        shorten 80 (nonempty (trimmed_field libs.unicode.trim d "replyToMessageId"));
    attachment = if is_some encrypted then none else attachment;
    encrypted = encrypted;
    preview = none;
    deleted = false;
    deleted_by = [];
    deleted_by_moderator = false;
  }

  -- The stored message is sent to the members; the address to fetch a preview of.
  deliver : Text → Text → ChatMessageRecord → Json → Act (Option Text)
  unfolding store_room_message trimmed_text
  deliver session_id room_id m d = do
    update (store_room_message room_id m)
    update (broadcast_to_room room_id 7 (chat_message m))
    update (respond_to_sender session_id 7 (message_ok m.message_id))
    done (if is_some m.encrypted then none else find_first_url libs.unicode (trimmed_text d))

  unfoldable pub send_chat_message : Text → Text → Json → Act (Option Text)
  unfolding attach trimmed_text new_message deliver take_turn
  send_chat_message message_id session_id d = do
    encrypted ←
        verdict session_id 7
          (parse_encrypted_payload libs.unicode.trim libs.to_string (get_field d "encrypted"))
    room_id ← or_respond session_id 7 (trimmed_field libs.unicode.trim d "gameId") "Missing gameId"
    stop_if (room_mismatch encrypted room_id) session_id 7 "Encrypted room mismatch"
    verdict session_id 7 (validate_room_id room_id)
    attachment ← attach session_id d
    stop_if (is_some encrypted && (not (is_empty (trimmed_text d)) || is_some attachment))
        session_id 7 "Encrypted messages cannot include plaintext fields"
    stop_if (is_empty (trimmed_text d) && (not (is_some attachment) && not (is_some encrypted)))
        session_id 7 "Empty message"
    over ← rate_limited chat_limit session_id env
    stop_if over session_id 7 "Message rate limited"
    player ← take_turn session_id room_id env.now
    s ← get
    stop_if (is_silenced env room_id player.user_id s) session_id 7
        "You are not allowed to speak in this room"
    deliver session_id room_id (new_message message_id room_id player d attachment encrypted) d
