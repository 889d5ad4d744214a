-- ===== src/Room/Manage/Settings.antt =====
-- Who changes a room's description, by `update_room_description` of websocket/protocol.rs.
use lqxp.Common.{
  ◌≤◌, ◌≡◌, ◌⊎◌, inl, inr, true, Option, none, some, arith, Option-cases, lookup, insert, Text,
  text_Eq,
}
use Prim.Native.String.{String}
use lqxp.Common.Chars.{char_count, char_count-take_chars}
use lqxp.Common.Json.{Json, str_field}
use lqxp.Chat.Messages.{Libraries}
use lqxp.Account.Files.{Disk}
use lqxp.Room.Record.{RoomRecord, ModeratorPermissions, is_community, is_admin_role, role_in_room}
use lqxp.Room.Decide.{Verdict-cases, allow, refuse}
use lqxp.Room.Acts.{rate_limited, or_respond, verdict, stop_if}
use lqxp.Room.Server.{
  Server, Env, respond_error, respond_to_sender, broadcast_to_room, room_record, set_room_record,
  session_identity, resolve_room_for_session,
}
use lqxp.Room.Manage.{update_room_description, description_of, write_room}

module _ (libs : Libraries) (disk : Disk) (env : Env)
    (mod_permissions : Option Json → Option ModeratorPermissions) where
  -- An administrator's or sub-administrator's change of the description of a community room.
  Described : Text → Json → Text → RoomRecord → Text × Text → Server → Server → Type 0
  Described session_id d room_id room actor s t =
      (lookup room_id s.rooms ≡ some room)
      × (is_community room.kind ≡ true)
      × (session_identity session_id s ≡ some actor)
      × (is_admin_role (role_in_room room actor.0) ≡ true)
      × (t.rooms
          ≡ insert room_id
              (record room { description = description_of libs disk env mod_permissions d })
              s.rooms)

  found :
      (session_id : Text) (d : Json) (s : Server) (room_id : Text) (room : RoomRecord)
      (actor : Text × Text)
      → session_identity session_id s ≡ some actor
      → resolve_room_for_session libs.unicode.trim session_id (str_field d "gameId") s
        ≡ allow room_id
      → room_record env.read_ok room_id s ≡ some room
      → ((update_room_description libs disk env mod_permissions session_id d s).1.rooms ≡ s.rooms)
        ⊎ Described session_id d room_id room actor s
            (update_room_description libs disk env mod_permissions session_id d s).1
  unfolding update_room_description Described rate_limited or_respond verdict stop_if respond_error
      respond_to_sender broadcast_to_room session_identity resolve_room_for_session write_room
      set_room_record
  found session_id d s room_id room actor h k e = ground arith

  described_limit : (d : Json) → char_count (description_of libs disk env mod_permissions d) ≤ 140
  unfolding description_of
  described_limit d = char_count-take_chars 140 _

  unchanged :
      (session_id : Text) (d : Json) (s : Server)
      → (session_identity session_id s ≡ none)
        ⊎ ((e : String) × (resolve_room_for_session libs.unicode.trim session_id
                (str_field d "gameId")
                s
              ≡ refuse e))
      → (update_room_description libs disk env mod_permissions session_id d s).1.rooms ≡ s.rooms
  unfolding update_room_description rate_limited or_respond verdict stop_if respond_error
      respond_to_sender session_identity resolve_room_for_session
  unchanged session_id d s (inl h) = ground arith
  unchanged session_id d s (inr (e, h)) = ground arith

  unknown :
      (session_id : Text) (d : Json) (s : Server) (room_id : Text)
      → resolve_room_for_session libs.unicode.trim session_id (str_field d "gameId") s
        ≡ allow room_id
      → room_record env.read_ok room_id s ≡ none
      → (update_room_description libs disk env mod_permissions session_id d s).1.rooms ≡ s.rooms
  unfolding update_room_description rate_limited or_respond verdict stop_if respond_error
      respond_to_sender session_identity resolve_room_for_session
  unknown session_id d s room_id h k = ground arith

-- An administrator or sub-administrator of a community room gave it a description.
pub DescribedAnew : Text → Server → Server → Type 0
DescribedAnew session_id s t =
    (room_id : Text) × (room : RoomRecord) × (actor : Text × Text) × (description : Text) × (lookup
        room_id s.rooms
      ≡ some room)
    × (is_community room.kind ≡ true)
    × (session_identity session_id s ≡ some actor)
    × (is_admin_role (role_in_room room actor.0) ≡ true)
    × (char_count description ≤ 140)
    × (t.rooms ≡ insert room_id (record room { description = description }) s.rooms)

-- `update_room_description` leaves the rooms as they are, or an administrator or sub-administrator
-- of a stored community room asked for it, and then only that room's description changes, to one of
-- at most 140 characters.
pub update_room_description_lem :
    (libs : Libraries) (disk : Disk) (env : Env)
    (mod_permissions : Option Json → Option ModeratorPermissions) (session_id : Text) (d : Json)
    (s : Server)
    → let t = (update_room_description libs disk env mod_permissions session_id d s).1 in
      (t.rooms ≡ s.rooms) ⊎ DescribedAnew session_id s t
unfolding DescribedAnew Described
update_room_description_lem libs disk env mod_permissions session_id d s =
    elim (Option-cases (session_identity session_id s)) [
      | inl h ↦ inl (unchanged libs disk env mod_permissions session_id d s (inl h))
      | inr (actor, h) ↦
          elim (Verdict-cases
            (resolve_room_for_session libs.unicode.trim session_id (str_field d "gameId") s)) [
              | inl e ↦ inl (unchanged libs disk env mod_permissions session_id d s (inr e))
              | inr (room_id, k) ↦ elim (Option-cases (room_record env.read_ok room_id s)) [
                | inl e ↦ inl (unknown libs disk env mod_permissions session_id d s room_id k e)
                | inr (room, e) ↦
                    elim (found libs disk env mod_permissions session_id d s room_id room actor h k
                      e) [
                        | inl u ↦ inl u
                        | inr t ↦ inr (
                          room_id,
                          room,
                          actor,
                          description_of libs disk env mod_permissions d,
                          t.0,
                          t.1,
                          t.2,
                          t.3,
                          described_limit libs disk env mod_permissions d,
                          t.4,
                        )
                      ]
              ]
            ]
    ]
