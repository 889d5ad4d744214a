-- ===== src/Chat/History.antt =====
-- `send_room_history` with `dispatch_room_history`, and `relay_room_signal`, of
-- websocket/protocol.rs.
pub mod Kept
use lqxp.Common.{
  ℕ, ◌+◌, ◌-◌, ◌*◌, ◌/◌, Bool, ◌&&◌, ◌||◌, not, Option, none, some, List, [], ◌∷◌, ◌++◌, ltb,
  if◌then◌else◌, ◌==◌, length, is_empty, contains, Assoc, unwrap_or, lookup, Text, text,
  to_ascii_lowercase, text_Eq,
}
use Prim.Native.String.{String}
use lqxp.Common.Order.{insert_sorted}
use lqxp.Common.Json.{Json, get_field, str_field, as_object, trimmed_field, nonempty}
use lqxp.Chat.Record.{ChatMessageRecord, PollTally}
use lqxp.Chat.Messages.{Libraries, identified}
use lqxp.Chat.Poll.{poll_state_for}
use lqxp.Room.Acts.{Operation, rate_limited, or_respond, verdict, stop_if, get, update}
use lqxp.Room.Server.{
  Act, and_then, ◌>>=◌, ◌>>◌, done, Server, PlayerSession, Env, Payload, room_history, room_signal,
  Frame, respond_to_sender, respond_error, resolve_room_for_session,
}

abbrev pub max_room_signal_bytes : ℕ
max_room_signal_bytes = 64 * 1024

unfoldable pub is_reserved_system_username : (Text → Text) → Text → Bool
unfolding text
is_reserved_system_username trim username = to_ascii_lowercase (trim username) == text "system"

-- A `BTreeSet` of the authors, in order.
authors_of : (Text → Text) → List ChatMessageRecord → List Text
unfolding is_reserved_system_username insert_sorted
authors_of trim [] = []
authors_of trim (m ∷ messages) =
    let username = trim m.username in
    let rest = authors_of trim messages in
    if is_empty username || (is_reserved_system_username trim username || contains rest username)
    then rest
    else insert_sorted (λ name. name) username rest

viewer_of : Option PlayerSession → Text
viewer_of none = []
viewer_of (some player) = player.user_id

abbrev history_limit : Operation
history_limit = record { op = 18; prefix = "room_history:session:"; limit = 150; window_ms = 10000 }

abbrev signal_limit : Operation
signal_limit = record { op = 55; prefix = "room_signal:session:"; limit = 60; window_ms = 10000 }

-- `profiles_by_usernames` asks the database for the profiles of the authors; a failure is logged.
module _ (libs : Libraries) (poll_voter_hash : Text → Text → Text)
    (profiles_by_usernames : List Text → Option (Assoc Text Json)) (env : Env) where
  with_poll :
      Assoc Text PollTally
      → Text
      → List ChatMessageRecord
      → List (ChatMessageRecord × Option (ℕ × Option (List ℕ)))
  unfolding poll_state_for
  with_poll tallies viewer [] = []
  with_poll tallies viewer (m ∷ messages) =
      (
        m,
        elim (lookup m.message_id tallies) [
          | none ↦ none
          | some tally ↦
              some (poll_state_for libs.unicode.trim poll_voter_hash m.message_id tally viewer)
        ],
      )
      ∷ with_poll tallies viewer messages

  dispatch_room_history : Text → Text → Server → Server
  unfolding authors_of viewer_of with_poll
  dispatch_room_history session_id room_id s =
      let messages = unwrap_or (lookup room_id s.room_messages) [] in
      let profiles = unwrap_or (profiles_by_usernames (authors_of libs.unicode.trim messages)) [] in
      let viewer = viewer_of (lookup session_id s.players) in
      respond_to_sender session_id 18
        (room_history room_id (with_poll s.poll_tallies viewer messages) profiles) s

  unfoldable pub send_room_history : Text → Json → Act (Unit {0})
  unfolding dispatch_room_history
  send_room_history session_id d = do
    over ← rate_limited history_limit session_id env
    stop_if over session_id 18 "History request rate limit exceeded"
    s ← get
    room_id ←
        verdict session_id 18
          (resolve_room_for_session libs.unicode.trim session_id (str_field d "gameId") s)
    update (dispatch_room_history session_id room_id)

-- The frames to the other sessions in the room.
signal_frames : Text → Text → Text → Json → Assoc Text PlayerSession → List Frame
signal_frames sender room_id from encrypted [] = []
signal_frames sender room_id from encrypted ((id, player) ∷ players) =
    if not (id == sender) && contains player.rooms room_id
    then record { session = id; op = 56; payload = room_signal room_id from encrypted }
      ∷ signal_frames sender room_id from encrypted players
    else signal_frames sender room_id from encrypted players

in_room : Option PlayerSession → Text → Text → Act PlayerSession
in_room none session_id room_id s = respond_error session_id 55 "You need to be identified before" s
in_room (some player) session_id room_id s =
    if is_empty player.username || not (contains player.rooms room_id)
    then respond_error session_id 55 "Not a member of this room" s
    else (some player, s)

unfoldable pub relay_room_signal : Libraries → Env → Text → Json → Act (Unit {0})
unfolding in_room signal_frames
relay_room_signal libs env session_id d = do
  over ← rate_limited signal_limit session_id env
  stop_if over session_id 55 "Rate limit exceeded"
  room_id ←
      or_respond session_id 55 (nonempty (trimmed_field libs.unicode.trim d "gameId"))
        "Missing gameId"
  encrypted ← or_respond session_id 55 (as_object (get_field d "encrypted")) "Missing payload"
  stop_if (ltb max_room_signal_bytes (length (libs.to_string encrypted))) session_id 55
      "Payload too large"
  s ← get
  player ← in_room (lookup session_id s.players) session_id room_id
  update (λ s. record s {
    sent = s.sent ++ signal_frames session_id room_id player.username encrypted s.players;
  })
