-- ===== src/Room/Server.antt =====
-- The shared state that the room operations of websocket/protocol.rs read and write, and the helpers
-- that every operation calls. The messages, the polls and the uploaded files are part of
-- the state too. The database and the outgoing channels are part of the state: whether
-- a query succeeds is an argument, and `sent` lists the frames handed to `try_send`.
use lqxp.Common.{
  ℕ, Bool, true, false, ◌||◌, Option, none, some, List, [], ◌∷◌, ◌++◌, ltb, if◌then◌else◌, ◌==◌,
  length, is_empty, all, find, contains, Assoc, values, lookup, insert, contains_key, Text,
  is_ascii_alphanumeric, to_ascii_lowercase, text_Eq,
}
use Prim.Native.String.{String}
use lqxp.Core.RateLimit.{Buckets}
use lqxp.Common.Json.{Json}
use lqxp.Chat.Record.{ChatMessageRecord, MessageReaction, LinkPreview, PollTally}
use lqxp.Room.Record.{RoomRecord}
use lqxp.Room.Decide.{Verdict, allow, refuse, Target}

-- The fields of `PlayerSession` that the operations use.
pub record PlayerSession : Type 0 where
  pub id : Text
  pub user_id : Text
  pub username : Text
  pub is_admin : Bool
  pub rooms : List Text
  pub invisible : Bool
  pub last_message_timestamp : Option ℕ
  pub profile : Json

-- What is sent: the operation's number and its payload.
pub data Payload : Type 0 where
  error_text : String → Payload
  room_update : Text → RoomRecord → Payload
  removed_from : Text → String → Payload
  member_left : Text → Text → RoomRecord → Payload
  room_created : Text → RoomRecord → Payload
  room_deleted : Text → Text → Payload
  room_deleted_ok : Text → Payload
  error_message : Text → Payload
  chat_message : ChatMessageRecord → Payload
  message_ok : Text → Payload
  message_preview : Text → Text → LinkPreview → Payload
  message_reactions : Text → Text → List MessageReaction → Payload
  message_deleted : Text → Text → Text → Bool → ℕ → Payload
  messages_deleted : Text → Text → ℕ → ℕ → List Text → Payload
  edit_ok : Text → Text → ℕ → Payload
  poll_update : Text → Text → ℕ → Option (List ℕ) → Payload
  room_signal : Text → Text → Json → Payload
  room_history :
      Text → List (ChatMessageRecord × Option (ℕ × Option (List ℕ))) → Assoc Text Json → Payload

pub record Frame : Type 0 where
  pub session : Text
  pub op : ℕ
  pub payload : Payload

pub record Server : Type 0 where
  pub players : Assoc Text PlayerSession
  pub rooms : Assoc Text RoomRecord
  pub rate_limits : Buckets
  pub room_messages : Assoc Text (List ChatMessageRecord)
  pub poll_tallies : Assoc Text PollTally
  pub messages_relayed : ℕ
  pub uploads : Assoc Text Text
  pub sent : List Frame

-- What the environment decides during one request: the clock, and which queries succeed.
pub record Env : Type 0 where
  pub now : ℕ
  pub read_ok : Bool
  pub reread_ok : Bool
  pub write_ok : Bool
  pub sync_read_ok : Bool
  pub sync_write_ok : Bool

-- The payload's fields, after `d.get(..).and_then(..)`.
pub record Request : Type 0 where
  pub game_id : Option Text
  pub target_user_id : Option Text
  pub target_username : Option Text

-- An action may stop early, having answered.
abbrev pub Act : Type 0 → Type 0
Act A = Server → Option A × Server

abbrev pub and_then : {A B : Type 0} → Option A × Server → (A → Act B) → Option B × Server
and_then (none, s) f = (none, s)
and_then (some a, s) f = f a s

infixl 5 ◌>>=◌ ◌>>◌
abbrev pub ◌>>=◌ : {A B : Type 0} → Act A → (A → Act B) → Act B
◌>>=◌ m f s = and_then (m s) f

abbrev pub ◌>>◌ : {A B : Type 0} → Act A → Act B → Act B
◌>>◌ m k s = and_then (m s) (λ _. k)

abbrev pub done : {A : Type 0} → A → Act A
done a s = (some a, s)

-- `respond_to_sender`: nothing is sent to a session that is gone.
unfoldable pub respond_to_sender : Text → ℕ → Payload → Server → Server
respond_to_sender session_id op payload s =
    if contains_key session_id s.players
    then record s {
      sent = s.sent ++ record { session = session_id; op = op; payload = payload } ∷ [];
    }
    else s

unfoldable pub respond_error : {A : Type 0} → Text → ℕ → String → Act A
unfolding respond_to_sender
respond_error session_id op message s =
    (none, respond_to_sender session_id op (error_text message) s)

frames_to_members : Text → ℕ → Payload → Assoc Text PlayerSession → List Frame
frames_to_members room_id op payload [] = []
frames_to_members room_id op payload ((id, player) ∷ players) =
    if contains player.rooms room_id
    then record { session = id; op = op; payload = payload }
      ∷ frames_to_members room_id op payload players
    else frames_to_members room_id op payload players

unfoldable pub broadcast_to_room : Text → ℕ → Payload → Server → Server
unfolding frames_to_members
broadcast_to_room room_id op payload s = record s {
  sent = s.sent ++ frames_to_members room_id op payload s.players;
}

-- `room_record`: a failed query reads as no room.
abbrev pub room_record : Bool → Text → Server → Option RoomRecord
room_record true room_id s = lookup room_id s.rooms
room_record false room_id s = none

unfoldable pub set_room_record : Text → RoomRecord → Server → Server
set_room_record room_id room s = record s { rooms = insert room_id room s.rooms }

unfoldable pub session_identity : Text → Server → Option (Text × Text)
session_identity session_id s = identity (lookup session_id s.players)
  where
    identity : Option PlayerSession → Option (Text × Text)
    identity none = none
    identity (some player) =
        if is_empty player.user_id || is_empty player.username
        then none
        else some (player.user_id, player.username)

unfoldable pub validate_room_id : Text → Verdict (Unit {0})
validate_room_id room_id =
    if ltb (length room_id) 8
    then refuse "Room name must be at least 8 characters"
    else if ltb 64 (length room_id)
    then refuse "Room name must be at most 64 characters"
    else if all is_ascii_alphanumeric room_id
    then allow tt
    else refuse "Room name must be alphanumeric"

-- `.filter(|value| !value.is_empty())`
abbrev pub not_blank : Option Text → Option Text
not_blank none = none
not_blank (some s) = if is_empty s then none else some s

abbrev pub map_text : (Text → Text) → Option Text → Option Text
map_text f none = none
map_text f (some s) = some (f s)

first_room : List Text → Verdict Text
first_room [] = refuse "Not a member of any room"
first_room (room ∷ _) = allow room

requested_room : Verdict (Unit {0}) → Text → List Text → Verdict Text
requested_room (refuse e) room rooms = refuse e
requested_room (allow _) room rooms =
    if contains rooms room then allow room else refuse "Not a member of this room"

room_of_player : Option Text → PlayerSession → Verdict Text
unfolding requested_room first_room validate_room_id
room_of_player (some room) player = requested_room (validate_room_id room) room player.rooms
room_of_player none player = first_room player.rooms

resolve_for : Option PlayerSession → Option Text → Verdict Text
unfolding room_of_player
resolve_for none requested = refuse "You need to be identified before"
resolve_for (some player) requested =
    if is_empty player.username
    then refuse "You need to be identified before"
    else room_of_player requested player

module _ (trim : Text → Text) where
  unfoldable pub resolve_room_for_session : Text → Option Text → Server → Verdict Text
  unfolding resolve_for
  resolve_room_for_session session_id requested_room s =
      resolve_for (lookup session_id s.players) (not_blank (map_text trim requested_room))

  username_of : Option PlayerSession → Text
  username_of none = []
  username_of (some player) = player.username

  -- `username_for_user_id(..).unwrap_or_default()`
  unfoldable pub username_for_user_id : Text → Server → Text
  unfolding username_of
  username_for_user_id user_id s =
      username_of (find (λ player. player.user_id == user_id) (values s.players))

  found_by_name : Option PlayerSession → Target
  found_by_name none = refuse "Unknown target user"
  found_by_name (some player) = allow (player.user_id, player.username)

  by_name : Option Text → Server → Target
  unfolding found_by_name
  by_name none s = refuse "Missing target user"
  by_name (some name) s = found_by_name (
      find (λ player. to_ascii_lowercase player.username == to_ascii_lowercase name)
        (values s.players))

  resolve_by : Option Text → Option Text → Server → Target
  unfolding username_for_user_id by_name
  resolve_by (some id) name s = allow (id, username_for_user_id id s)
  resolve_by none name s = by_name name s

  unfoldable pub resolve_target : Request → Server → Target
  unfolding resolve_by
  resolve_target req s =
      resolve_by (not_blank (map_text trim req.target_user_id))
        (not_blank (map_text trim req.target_username)) s
