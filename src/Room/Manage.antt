-- ===== src/Room/Manage.antt =====
-- `create_room`, `update_room_title`, `update_room_description` and `delete_room_op` of
-- websocket/protocol.rs. Created is about a creation, Owner about a deletion,
-- Settings about a description.
pub mod Created
pub mod Owner
pub mod Settings
use lqxp.Common.{
  ℕ, ◌+◌, ◌-◌, ◌/◌, Bool, true, false, ◌&&◌, ◌||◌, not, Option, none, some, List, [], ◌∷◌, ◌++◌,
  if◌then◌else◌, ◌==◌, is_empty, contains, set_remove, Assoc, is_some, unwrap_or, lookup, remove,
  contains_key, Text, text, text_Eq,
}
use Prim.Native.String.{String}
use lqxp.Common.Chars.{take_chars}
use lqxp.Common.Json.{Json, get_field, as_str, str_field, trimmed_field, nonempty}
use lqxp.Chat.Messages.{Libraries}
use lqxp.Room.Record.{
  StoredFile, RoomRecord, ModeratorPermissions, RoomKind, community, classic, administrator,
  default_permissions, is_community, role_in_room, is_admin_role, owned_by,
}
use lqxp.Room.Decide.{Verdict, allow, refuse}
use lqxp.Room.Acts.{Operation, rate_limited, or_respond, verdict, stop_if, get, update}
use lqxp.Room.Server.{
  Act, and_then, ◌>>=◌, ◌>>◌, done, Server, Env, PlayerSession, Payload, room_update, room_created,
  room_deleted, room_deleted_ok, Frame, respond_to_sender, respond_error, broadcast_to_room,
  room_record, set_room_record, session_identity, validate_room_id, resolve_room_for_session,
}
use lqxp.Room.Handlers.{sync_room_record}
use lqxp.Room.Icon.{store_room_icon_from_payload}
use lqxp.Account.Files.{Disk}

abbrev pub max_room_description_chars : ℕ
max_room_description_chars = 140

abbrev create_limit : Operation
create_limit = record { op = 40; prefix = "create_room:session:"; limit = 5; window_ms = 60000 }

abbrev title_by_session : Operation
title_by_session = record { op = 33; prefix = "room_title:session:"; limit = 5; window_ms = 30000 }

abbrev title_by_user : Operation
title_by_user = record { op = 33; prefix = "room_title:user:"; limit = 5; window_ms = 30000 }

abbrev description_limit : Operation
description_limit = record { op = 41; prefix = "room_desc:session:"; limit = 5; window_ms = 30000 }

abbrev delete_limit : Operation
delete_limit = record { op = 57; prefix = "delete_room:session:"; limit = 5; window_ms = 60000 }

-- `d.get("roomId").or_else(|| d.get("gameId"))`
requested_id : Json → Option Text
unfolding str_field as_str
requested_id d = elim (get_field d "roomId") [
  | none ↦ str_field d "gameId"
  | some v ↦ as_str (some v)
]

trimmed : (Text → Text) → Option Text → Option Text
unfolding nonempty
trimmed trim none = none
trimmed trim (some s) = nonempty (some (trim s))

requested_kind : Text → Verdict (Unit {0})
unfolding text
requested_kind kind =
    if kind == text "community"
    then allow tt
    else if kind == text "classic"
    then refuse "Classic rooms are created locally"
    else refuse "Invalid room kind"

user_of : Option PlayerSession → Text
user_of none = []
user_of (some player) = player.user_id

is_server_admin : Option PlayerSession → Bool
is_server_admin none = false
is_server_admin (some player) = player.is_admin

-- A community room whose record can be read may be changed by its administrators alone.
may_not_change : Option RoomRecord → Text → Bool
unfolding role_in_room
may_not_change none user_id = false
may_not_change (some room) user_id =
    is_community room.kind && not (is_admin_role (role_in_room room user_id))

-- `mod_permissions` is how serde reads the permissions. The first write is under `write_ok`; the
-- write of the icon, and the one of `sync_room_record`, under `sync_write_ok`.
module _ (libs : Libraries) (disk : Disk) (env : Env)
    (mod_permissions : Option Json → Option ModeratorPermissions) where
  title_of : Json → Text → Text
  unfolding take_chars nonempty trimmed_field
  title_of d room_id = elim (nonempty (trimmed_field libs.unicode.trim d "title")) [
    | none ↦ room_id
    | some title ↦ take_chars 64 title
  ]

  description_of : Json → Text
  unfolding take_chars trimmed_field
  description_of d =
      take_chars max_room_description_chars
        (unwrap_or (trimmed_field libs.unicode.trim d "description") [])

  new_room : Text → Text → Json → RoomRecord
  unfolding title_of description_of
  new_room room_id user_id d = record {
    room_id = room_id;
    title = title_of d room_id;
    icon = none;
    members = [];
    kind = community;
    description = description_of d;
    owner_id = some user_id;
    chat_locked = false;
    roles = (user_id, administrator) ∷ [];
    banned = [];
    timeouts = [];
    mod_permissions =
        unwrap_or (mod_permissions (get_field d "modPermissions")) default_permissions;
    calls_enabled = true;
  }

  -- `create_room_if_absent`: a key that is there is left alone, and the name is taken.
  insert_room : Text → Text → RoomRecord → Act (Unit {0})
  unfolding contains_key
  insert_room session_id room_id room s =
      if not env.write_ok
      then respond_error session_id 40 "Failed to persist room" s
      else if contains_key room_id s.rooms
      then respond_error session_id 40 "This room name is already taken" s
      else (some tt, set_room_record room_id room s)

  -- An icon that cannot be stored is left out.
  add_icon : Text → RoomRecord → Json → Act RoomRecord
  unfolding set_room_record
  add_icon room_id room d s =
      let (result, uploads) =
        store_room_icon_from_payload libs disk d (room_record env.read_ok room_id s) s.uploads in
      let stored = record s { uploads = uploads } in
      elim result [
        | refuse e ↦ (some room, stored)
        | allow none ↦ (some room, stored)
        | allow (some icon) ↦
            let new = record room { icon = some icon } in
            (some new, if env.sync_write_ok then set_room_record room_id new stored else stored)
      ]

  pub create_room : Text → Json → Act (Unit {0})
  unfolding requested_id trimmed requested_kind new_room insert_room add_icon text
  create_room session_id d = do
    over ← rate_limited create_limit session_id env
    stop_if over session_id 40 "Create room rate limit exceeded"
    s ← get
    (user_id, _) ←
        or_respond session_id 40 (session_identity session_id s) "You need to be identified before"
    room_id ← or_respond session_id 40 (trimmed libs.unicode.trim (requested_id d)) "Missing roomId"
    verdict session_id 40 (validate_room_id room_id)
    verdict session_id 40
        (requested_kind (unwrap_or (trimmed_field libs.unicode.trim d "kind") (text "community")))
    stop_if (is_some (room_record env.read_ok room_id s)) session_id 40
        "This room name is already taken"
    insert_room session_id room_id (new_room room_id user_id d)
    room ← add_icon room_id (new_room room_id user_id d) d
    s ← get
    update (
        respond_to_sender session_id 40
          (room_created room_id (unwrap_or (room_record env.reread_ok room_id s) room)))

  -- `sync_room_record` with the record that it writes.
  synced_room : Text → Act (Option RoomRecord)
  synced_room room_id s =
      let t = sync_room_record libs.unicode.trim env room_id s in
      if env.sync_write_ok then (some (room_record true room_id t), t) else (some none, s)

  write_room : Text → ℕ → Text → RoomRecord → String → Act (Unit {0})
  unfolding set_room_record
  write_room session_id op room_id room message s =
      if env.write_ok
      then (some tt, set_room_record room_id room s)
      else respond_error session_id op message s

  unfoldable update_room_title : Text → Json → Act (Unit {0})
  unfolding user_of may_not_change title_of synced_room write_room
  update_room_title session_id d = do
    s ← get
    over ←
        if is_empty (user_of (lookup session_id s.players))
        then rate_limited title_by_session session_id env
        else rate_limited title_by_user (user_of (lookup session_id s.players)) env
    stop_if over session_id 33 "Rate limit exceeded. Please wait."
    room_id ←
        verdict session_id 33
          (resolve_room_for_session libs.unicode.trim session_id (str_field d "gameId") s)
    stop_if
        (may_not_change (room_record env.read_ok room_id s) (user_of (lookup session_id s.players)))
        session_id 33 "You are not allowed to change this room"
    synced ← synced_room room_id
    room ← or_respond session_id 33 synced "Failed to persist room title"
    write_room session_id 33 room_id (record room { title = title_of d room_id })
        "Failed to persist room title"
    update (
        broadcast_to_room room_id 33
          (room_update room_id (record room { title = title_of d room_id })))
    update (
        respond_to_sender session_id 33
          (room_update room_id (record room { title = title_of d room_id })))

  pub update_room_description : Text → Json → Act (Unit {0})
  unfolding description_of write_room
  update_room_description session_id d = do
    over ← rate_limited description_limit session_id env
    stop_if over session_id 41 "Rate limit exceeded"
    s ← get
    (user_id, _) ←
        or_respond session_id 41 (session_identity session_id s) "You need to be identified before"
    room_id ←
        verdict session_id 41
          (resolve_room_for_session libs.unicode.trim session_id (str_field d "gameId") s)
    room ← or_respond session_id 41 (room_record env.read_ok room_id s) "Unknown room"
    stop_if (not (is_community room.kind)) session_id 41 "Not available for classic rooms"
    stop_if (not (is_admin_role (role_in_room room user_id))) session_id 41
        "You are not allowed to change this room"
    write_room session_id 41 room_id (record room { description = description_of d })
        "Failed to persist description"
    update (
        broadcast_to_room room_id 41
          (room_update room_id (record room { description = description_of d })))
    update (
        respond_to_sender session_id 41
          (room_update room_id (record room { description = description_of d })))

leave_everyone : Text → Assoc Text PlayerSession → Assoc Text PlayerSession
leave_everyone room_id [] = []
leave_everyone room_id ((id, player) ∷ players) =
    (id, record player { rooms = set_remove room_id player.rooms }) ∷ leave_everyone room_id players

deleted_frames : Text → Text → Assoc Text PlayerSession → List Frame
deleted_frames room_id by [] = []
deleted_frames room_id by ((id, player) ∷ players) =
    if contains player.rooms room_id
    then record { session = id; op = 58; payload = room_deleted room_id by }
      ∷ deleted_frames room_id by players
    else deleted_frames room_id by players

drop_icon : RoomRecord → Server → Server
drop_icon room s = elim room.icon [
  | none ↦ s
  | some icon ↦ record s { uploads = remove icon.id s.uploads }
]

-- The record, the messages and every session's membership go; the members are told.
forget_room : Text → Text → Server → Server
unfolding leave_everyone deleted_frames
forget_room room_id by s = record s {
  rooms = remove room_id s.rooms;
  room_messages = remove room_id s.room_messages;
  players = leave_everyone room_id s.players;
  sent = s.sent ++ deleted_frames room_id by s.players;
}

pub delete_room_op : (Text → Text) → Env → Text → Json → Act (Unit {0})
unfolding is_server_admin drop_icon forget_room
delete_room_op trim env session_id d = do
  over ← rate_limited delete_limit session_id env
  stop_if over session_id 57 "Rate limit exceeded"
  s ← get
  (actor_id, actor_name) ←
      or_respond session_id 57 (session_identity session_id s) "You need to be identified before"
  room_id ←
      verdict session_id 57 (resolve_room_for_session trim session_id (str_field d "gameId") s)
  room ← or_respond session_id 57 (room_record env.read_ok room_id s) "Unknown room"
  stop_if (not (is_community room.kind)) session_id 57 "Not a community room"
  stop_if
      (not (owned_by room.owner_id actor_id) && not (is_server_admin (lookup session_id s.players)))
      session_id 57 "Only the room owner can delete it"
  update (drop_icon room)
  stop_if (not env.write_ok) session_id 57 "Failed to delete room"
  update (forget_room room_id actor_name)
  update (respond_to_sender session_id 57 (room_deleted_ok room_id))
