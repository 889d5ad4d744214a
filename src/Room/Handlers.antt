-- ===== src/Room/Handlers.antt =====
-- The room operations of websocket/protocol.rs, whole: rate limit, identity, room, checks, write,
-- and what is sent.
pub mod Effects
pub mod Calls
pub mod Expel
use lqxp.Common.{
  ℕ, ◌+◌, ◌-◌, ◌/◌, Bool, ◌&&◌, not, Option, none, some, List, [], ◌∷◌, ◌++◌, if◌then◌else◌, ◌==◌,
  is_empty, contains, set_remove, Assoc, unwrap_or, Text, text, to_ascii_lowercase, text_Eq,
}
use Prim.Native.String.{String}
use lqxp.Core.RateLimit.{rate_limit_hit}
use lqxp.Room.Record.{
  RoomRecord, ModeratorPermissions, RoomRole, is_community, default_room, role_from_str,
}
use lqxp.Room.Decide.{
  Verdict, allow, refuse, set_member_role_in, ban_member_in, unban_member_in, kick_member_in,
  timeout_member_in, unmute_member_in, transfer_ownership_in, set_chat_lock_in,
  set_moderator_permissions_in, set_calls_enabled_in,
}
use lqxp.Room.Acts.{Operation, rate_limited, or_respond, verdict, stop_if, get}
use lqxp.Room.Server.{
  Act, and_then, ◌>>=◌, ◌>>◌, done, Server, Env, Request, PlayerSession, Payload, room_update,
  removed_from, member_left, Frame, respond_to_sender, respond_error, broadcast_to_room,
  room_record, set_room_record, session_identity, resolve_room_for_session, resolve_target,
}

-- `remove_user_from_room`: every session of the user leaves the room, and is told.
leave_room : Text → Text → Assoc Text PlayerSession → Assoc Text PlayerSession
leave_room room_id user_id [] = []
leave_room room_id user_id ((id, player) ∷ players) =
    (
      id,
      if player.user_id == user_id
          then record player { rooms = set_remove room_id player.rooms }
          else player,
    )
    ∷ leave_room room_id user_id players

removed_frames : Text → Text → String → Assoc Text PlayerSession → List Frame
removed_frames room_id user_id reason [] = []
removed_frames room_id user_id reason ((id, player) ∷ players) =
    if (player.user_id == user_id) && contains player.rooms room_id
    then record { session = id; op = 4; payload = removed_from room_id reason }
      ∷ removed_frames room_id user_id reason players
    else removed_frames room_id user_id reason players

unfoldable pub remove_user_from_room : Text → Text → String → Server → Server
unfolding leave_room removed_frames
remove_user_from_room room_id user_id reason s = record s {
  players = leave_room room_id user_id s.players;
  sent = s.sent ++ removed_frames room_id user_id reason s.players;
}

-- `room_usernames` with no viewer: those who are neither the system nor invisible.
abbrev is_visible : (Text → Text) → PlayerSession → Bool
is_visible trim player =
    not (to_ascii_lowercase (trim player.username) == text "system") && not player.invisible

unfoldable pub room_usernames : (Text → Text) → Text → Assoc Text PlayerSession → List Text
room_usernames trim room_id [] = []
room_usernames trim room_id ((id, player) ∷ players) =
    if contains player.rooms room_id && is_visible trim player
    then player.username ∷ room_usernames trim room_id players
    else room_usernames trim room_id players

-- The record that `sync_room_record` starts from: a failed query reads as no record.
abbrev previous_or_new : Option RoomRecord → Text → RoomRecord
previous_or_new none room_id = record default_room { room_id = room_id; title = room_id }
previous_or_new (some room) room_id = room

module _ (trim : Text → Text) (env : Env) where
  synced : Text → Server → RoomRecord
  unfolding room_usernames
  synced room_id s =
      let room = previous_or_new (room_record env.sync_read_ok room_id s) room_id in
      record room {
        title = if is_empty (trim room.title) then room_id else room.title;
        members = room_usernames trim room_id s.players;
      }

  -- A failed write is logged by the callers, who go on.
  unfoldable pub sync_room_record : Text → Server → Server
  unfolding synced
  sync_room_record room_id s =
      if env.sync_write_ok then set_room_record room_id (synced room_id s) s else s

  -- What every operation begins with: the actor's id, the room's id and its record.
  enter : Operation → Text → Request → Act (Text × Text × RoomRecord)
  unfolding rate_limited stop_if or_respond verdict
  enter o session_id req = do
    over ← rate_limited o session_id env
    stop_if over session_id o.op "Rate limit exceeded"
    s ← get
    (actor_id, _) ←
        or_respond session_id o.op (session_identity session_id s)
          "You need to be identified before"
    room_id ← verdict session_id o.op (resolve_room_for_session trim session_id req.game_id s)
    room ← or_respond session_id o.op (room_record env.read_ok room_id s) "Unknown room"
    stop_if (not (is_community room.kind)) session_id o.op "Not a community room"
    done (actor_id, room_id, room)

  -- `set_room_record`, and the answer where it fails.
  persist : Text → ℕ → Text → RoomRecord → String → Act (Unit {0})
  persist session_id op room_id room message s =
      if env.write_ok
      then (some tt, set_room_record room_id room s)
      else respond_error session_id op message s

  -- The record is read again and sent to the members and to the sender.
  announce : Text → ℕ → Text → RoomRecord → Act (Unit {0})
  announce session_id op room_id room s =
      let current = unwrap_or (room_record env.reread_ok room_id s) room in
      let told = broadcast_to_room room_id op (room_update room_id current) s in
      (some tt, respond_to_sender session_id op (room_update room_id current) told)

  -- An operation that changes the record and announces it.
  pub change :
      Operation
      → String
      → Text
      → Request
      → (Text → Server → RoomRecord → Verdict RoomRecord)
      → Act (Unit {0})
  unfolding enter persist announce verdict
  change o failed session_id req decide = do
    (actor_id, room_id, room) ← enter o session_id req
    s ← get
    changed ← verdict session_id o.op (decide actor_id s room)
    persist session_id o.op room_id changed failed
    announce session_id o.op room_id changed

  abbrev operation : ℕ → String → Operation
  operation op prefix = record { op = op; prefix = prefix; limit = 10; window_ms = 30000 }

  unfoldable pub set_member_role : Text → Request → Option Text → Act (Unit {0})
  unfolding change
  set_member_role session_id req role =
      change (operation 42 "set_role:session:") "Failed to persist role" session_id req
        (λ actor_id s room.
          set_member_role_in actor_id (named role) (resolve_target trim req s) room)
    where
      named : Option Text → Option RoomRole
      named none = none
      named (some value) = role_from_str trim value

  unfoldable pub unban_member : Text → Request → Act (Unit {0})
  unfolding change
  unban_member session_id req =
      change (operation 44 "unban:session:") "Failed to persist unban" session_id req
        (λ actor_id s room. unban_member_in actor_id (resolve_target trim req s) room)

  unfoldable pub timeout_member : Text → Request → Option ℕ → Act (Unit {0})
  unfolding change
  timeout_member session_id req duration =
      change (operation 46 "timeout:session:") "Failed to persist timeout" session_id req
        (λ actor_id s room.
          timeout_member_in actor_id (resolve_target trim req s) duration env.now room)

  unfoldable pub transfer_ownership : Text → Request → Act (Unit {0})
  unfolding change
  transfer_ownership session_id req =
      change (record { op = 47; prefix = "transfer:session:"; limit = 5; window_ms = 60000 })
        "Failed to persist transfer" session_id req
        (λ actor_id s room. transfer_ownership_in actor_id (resolve_target trim req s) room)

  unfoldable pub set_chat_lock : Text → Request → Option Bool → Act (Unit {0})
  unfolding change
  set_chat_lock session_id req locked =
      change (operation 48 "chat_lock:session:") "Failed to persist chat lock" session_id req
        (λ actor_id s room. set_chat_lock_in actor_id locked room)

  unfoldable pub set_moderator_permissions :
      Text → Request → Option ModeratorPermissions → Act (Unit {0})
  unfolding change
  set_moderator_permissions session_id req permissions =
      change (operation 49 "mod_perms:session:") "Failed to persist permissions" session_id req
        (λ actor_id s room. set_moderator_permissions_in actor_id permissions room)

  unfoldable pub set_calls_enabled : Text → Request → Option Bool → Act (Unit {0})
  unfolding change
  set_calls_enabled session_id req enabled =
      change (operation 50 "calls_enabled:session:") "Failed to persist call mode" session_id req
        (λ actor_id s room. set_calls_enabled_in actor_id enabled room)

  unfoldable pub unmute_member : Text → Request → Act (Unit {0})
  unfolding change
  unmute_member session_id req =
      change (operation 52 "unmute:session:") "Failed to persist unmute" session_id req
        (λ actor_id s room. unmute_member_in actor_id (resolve_target trim req s) room)

  -- The end of a ban and of a kick.
  expel : Text → ℕ → Text → RoomRecord → Text → Text → String → Act (Unit {0})
  unfolding remove_user_from_room sync_room_record
  expel session_id op room_id room target_id target_name reason s =
      let left = remove_user_from_room room_id target_id reason s in
      let kept = sync_room_record room_id left in
      let current = unwrap_or (room_record env.reread_ok room_id kept) room in
      let told = broadcast_to_room room_id 4 (member_left room_id target_name current) kept in
      (some tt, respond_to_sender session_id op (room_update room_id current) told)

  unfoldable pub ban_member : Text → Request → Act (Unit {0})
  unfolding enter persist verdict expel
  ban_member session_id req = do
    (actor_id, room_id, room) ← enter (operation 43 "ban:session:") session_id req
    s ← get
    (target_id, target_name, banned) ←
        verdict session_id 43 (ban_member_in actor_id (resolve_target trim req s) room)
    persist session_id 43 room_id banned "Failed to persist ban"
    expel session_id 43 room_id banned target_id target_name "banned"

  unfoldable pub kick_member : Text → Request → Act (Unit {0})
  unfolding enter verdict expel
  kick_member session_id req = do
    (actor_id, room_id, room) ← enter (operation 45 "kick:session:") session_id req
    s ← get
    (target_id, target_name) ←
        verdict session_id 45 (kick_member_in actor_id (resolve_target trim req s) room)
    expel session_id 45 room_id room target_id target_name "kicked"
