-- ===== src/Examples/Room.antt =====
-- A community room with an owner, a moderator and a sub-administrator, and runs of its operations.
use lqxp.Common.{
  ◌+◌, ◌*◌, ◌≤◌, ◌≡◌, refl, ◌≢◌, true, false, none, some, [], ◌∷◌, arith, if◌then◌else◌, ◌==◌,
  contains, set_remove, count, lookup, remove, insert, contains_key, Text, text, text_eq, text_Eq,
}
use lqxp.Common.Json.{null}
use lqxp.Room.Record.{
  RoomRecord, member, moderator, sub_administrator, administrator, community, default_room,
  role_in_room, can_speak, count_role, can_moderate,
}
use lqxp.Room.Handlers.{remove_user_from_room}
use lqxp.Room.Handlers.Expel.{expelled, remove_user_from_room_lem}
use lqxp.Room.Record.Roles.{RolesOk}
use lqxp.Room.Decide.{
  allow, set_member_role_in, ban_member_in, unban_member_in, kick_member_in, timeout_member_in,
  unmute_member_in, transfer_ownership_in, set_chat_lock_in, set_moderator_permissions_in,
  set_calls_enabled_in, timeout_seconds, min_timeout_secs, max_timeout_secs,
}
use lqxp.Room.Decide.Authority.{
  owner_is_safe, member_is_powerless, banned_cannot_speak, timeout_silences,
}
use lqxp.Room.Decide.Unmute.{timeout_lifted_by_target}
use lqxp.Room.Decide.Transfer.{transfer_ownership_in_roles}
use lqxp.Room.Server.{Server, PlayerSession, Env, Request}
use lqxp.Room.Handlers.Effects.Roles.{AllRolesOk, inserted-AllRolesOk}
use lqxp.Room.Handlers.Calls.{set_role, perform, operation_of, here, next, reachable_roles}

abbrev pub lobby : RoomRecord
lobby = record default_room {
  room_id = text "lobby123";
  title = text "lobby123";
  kind = community;
  owner_id = some (text "alice");
  roles = (text "bob", moderator) ∷ (text "carol", sub_administrator) ∷ [];
}

abbrev pub session_of : Text → PlayerSession
session_of user_id = record {
  id = user_id;
  user_id = user_id;
  username = user_id;
  is_admin = false;
  rooms = text "lobby123" ∷ [];
  invisible = false;
  last_message_timestamp = none;
  profile = null;
}

abbrev pub server : Server
server = record {
  players =
      (text "alice", session_of (text "alice")) ∷ (text "dave", session_of (text "dave")) ∷ [];
  rooms = (text "lobby123", lobby) ∷ [];
  rate_limits = [];
  room_messages = [];
  poll_tallies = [];
  messages_relayed = 0;
  uploads = [];
  sent = [];
}

abbrev pub good_env : Env
good_env = record {
  now = 1000;
  read_ok = true;
  reread_ok = true;
  write_ok = true;
  sync_read_ok = true;
  sync_write_ok = true;
}

abbrev about : Text → Request
about user = record {
  game_id = some (text "lobby123");
  target_user_id = some user;
  target_username = none;
}

lobby-RolesOk : RolesOk lobby
unfolding count_role count lookup text_eq text
lobby-RolesOk = record {
  distinct = (refl, (refl, tt));
  moderators = omega arith;
  sub_administrators = omega arith;
  one_administrator = λ user h. ground arith;
}

server-AllRolesOk : AllRolesOk server.rooms
unfolding insert remove lookup
server-AllRolesOk =
    inserted-AllRolesOk [] (text "lobby123") lobby (λ room_id room h. cc) lobby-RolesOk

abbrev after_promotion : Server
after_promotion =
    (perform (λ s. s) good_env (text "alice") (about (text "dave"))
      (set_role (some (text "moderator"))) server).1

reachable_roles_example : AllRolesOk after_promotion.rooms
reachable_roles_example =
    reachable_roles (λ s. s) server after_promotion server-AllRolesOk
      (next here (
        operation_of good_env (text "alice") (about (text "dave"))
          (set_role (some (text "moderator")))))

owner_is_safe_example :
    (ban_member_in (text "carol") (allow (text "alice", text "alice")) lobby
      ≢ allow (text "alice", text "alice", lobby))
    × (kick_member_in (text "carol") (allow (text "alice", text "alice")) lobby
        ≢ allow (text "alice", text "alice"))
    × (timeout_member_in (text "carol") (allow (text "alice", text "alice")) (some 60) 5 lobby
        ≢ allow lobby)
    × (set_member_role_in (text "carol") (some member) (allow (text "alice", text "alice")) lobby
        ≢ allow lobby)
owner_is_safe_example =
    owner_is_safe lobby (text "alice") (text "carol") (text "alice") (some member) (some 60) 5
      (text "alice", text "alice", lobby) (text "alice", text "alice") lobby lobby-RolesOk refl

dave_is_member : role_in_room lobby (text "dave") ≡ member
unfolding role_in_room lookup text_eq text
dave_is_member = refl

member_is_powerless_example :
    (ban_member_in (text "dave") (allow (text "bob", text "bob")) lobby
      ≢ allow (text "bob", text "bob", lobby))
    × (kick_member_in (text "dave") (allow (text "bob", text "bob")) lobby
        ≢ allow (text "bob", text "bob"))
    × (timeout_member_in (text "dave") (allow (text "bob", text "bob")) none 5 lobby ≢ allow lobby)
    × (unmute_member_in (text "dave") (allow (text "bob", text "bob")) lobby ≢ allow lobby)
    × (unban_member_in (text "dave") (allow (text "bob", text "bob")) lobby ≢ allow lobby)
    × (set_member_role_in (text "dave") (some member) (allow (text "bob", text "bob")) lobby
        ≢ allow lobby)
    × (set_chat_lock_in (text "dave") (some true) lobby ≢ allow lobby)
    × (set_moderator_permissions_in (text "dave") none lobby ≢ allow lobby)
    × (set_calls_enabled_in (text "dave") (some true) lobby ≢ allow lobby)
    × (transfer_ownership_in (text "dave") (allow (text "bob", text "bob")) lobby ≢ allow lobby)
member_is_powerless_example =
    member_is_powerless lobby (text "dave") (text "bob") (text "bob") (some member) none 5
      (some true) none (text "bob", text "bob", lobby) (text "bob", text "bob") lobby dave_is_member

abbrev banned_lobby : RoomRecord
banned_lobby = record lobby { banned = (text "dave", text "dave") ∷ [] }

dave_banned :
    ban_member_in (text "bob") (allow (text "dave", text "dave")) lobby
    ≡ allow (text "dave", text "dave", banned_lobby)
unfolding ban_member_in can_moderate role_in_room lookup text_eq text insert remove
dave_banned = refl

banned_cannot_speak_example :
    (can_speak banned_lobby (text "dave") 7 ≡ false)
    × (lookup (text "carol") banned_lobby.banned ≡ (
        if text "dave" == text "carol"
        then some (text "dave")
        else lookup (text "carol") lobby.banned))
banned_cannot_speak_example =
    banned_cannot_speak lobby banned_lobby (text "bob") (allow (text "dave", text "dave"))
      (text "dave") (text "dave") (text "carol") 7 dave_banned

-- A request of a single second is raised to a minute.
abbrev muted_lobby : RoomRecord
muted_lobby = record lobby { timeouts = (text "dave", 61000) ∷ [] }

dave_muted :
    timeout_member_in (text "bob") (allow (text "dave", text "dave")) (some 1) 1000 lobby
    ≡ allow muted_lobby
unfolding timeout_member_in timeout_seconds can_moderate role_in_room lookup text_eq text insert
    remove
dave_muted = refl

timeout_silences_example :
    (min_timeout_secs ≤ timeout_seconds (some 1))
    × (timeout_seconds (some 1) ≤ max_timeout_secs)
    × (lookup (text "dave") muted_lobby.timeouts ≡ some (1000 + timeout_seconds (some 1) * 1000))
    × (can_speak muted_lobby (text "dave") 60999 ≡ false)
timeout_silences_example =
    timeout_silences lobby muted_lobby (text "bob") (text "dave") (text "dave") (some 1) 1000 60999
      dave_muted (unfold timeout_seconds in omega arith)

abbrev carol_lobby : RoomRecord
carol_lobby = record lobby { timeouts = (text "carol", 61000) ∷ [] }

carol_muted :
    timeout_member_in (text "alice") (allow (text "carol", text "carol")) (some 1) 1000 lobby
    ≡ allow carol_lobby
unfolding timeout_member_in timeout_seconds can_moderate role_in_room lookup text_eq text insert
    remove
carol_muted = refl

carol_is_sub_administrator : role_in_room lobby (text "carol") ≡ sub_administrator
unfolding role_in_room lookup text_eq text
carol_is_sub_administrator = refl

timeout_lifted_by_target_example :
    (can_speak carol_lobby (text "carol") 2000 ≡ false)
    × ((freed : RoomRecord) × (unmute_member_in
            (text "carol")
            (allow (text "carol", text "carol"))
            carol_lobby
          ≡ allow freed)
        × (can_speak freed (text "carol") 2000 ≡ true))
unfolding contains_key lookup
timeout_lifted_by_target_example =
    timeout_lifted_by_target lobby carol_lobby (text "alice") (text "carol") (text "carol") (some 1)
      1000 2000 carol_muted carol_is_sub_administrator refl (unfold timeout_seconds in omega arith)

abbrev carols_lobby : RoomRecord
carols_lobby = record lobby {
  owner_id = some (text "carol");
  roles =
      (text "alice", sub_administrator)
      ∷ (text "carol", administrator)
      ∷ (text "bob", moderator)
      ∷ [];
}

carol_owns :
    transfer_ownership_in (text "alice") (allow (text "carol", text "carol")) lobby
    ≡ allow carols_lobby
unfolding transfer_ownership_in role_in_room count_role count lookup text_eq text insert remove
carol_owns = refl

transfer_ownership_in_roles_example :
    (text "alice" ≢ text "carol")
    × (role_in_room carols_lobby (text "bob") ≡ (
        if text "carol" == text "bob"
        then administrator
        else if text "alice" == text "bob"
        then sub_administrator
        else role_in_room lobby (text "bob")))
    × (carols_lobby.banned ≡ lobby.banned)
transfer_ownership_in_roles_example =
    transfer_ownership_in_roles lobby carols_lobby (text "alice") (text "carol") (text "carol")
      (text "bob") carol_owns

remove_user_from_room_lem_example :
    (lookup
        (text "dave")
        (remove_user_from_room (text "lobby123") (text "dave") "kicked" server).players
      ≡ some (expelled (text "lobby123") (text "dave") (session_of (text "dave"))))
    × (contains (set_remove (text "lobby123") (session_of (text "dave")).rooms) (text "lobby123")
        ≡ false)
    × ((remove_user_from_room (text "lobby123") (text "dave") "kicked" server).rooms ≡ server.rooms)
unfolding lookup text text_eq
remove_user_from_room_lem_example =
    remove_user_from_room_lem (text "lobby123") (text "dave") (text "dave") "kicked" server
      (session_of (text "dave")) refl
