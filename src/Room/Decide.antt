-- ===== src/Room/Decide.antt =====
-- What each room operation of websocket/protocol.rs does to the record once the room is found: the
-- checks in the order of the handler, and the change. The looked-up target and the fields of the
-- request are arguments.
pub mod Limits
pub mod Authority
pub mod Transfer
pub mod Unmute
use lqxp.Common.{
  ℕ, ◌+◌, ◌-◌, ◌*◌, ◌/◌, ◌≡◌, refl, ◌⊎◌, inl, inr, Bool, true, false, ◌&&◌, not, Option, none, some,
  ltb, leb, if◌then◌else◌, ◌==◌, Assoc, unwrap_or, remove, insert, Text, text, text_Eq,
}
use Prim.Native.String.{String}
use lqxp.Room.Record.{
  RoomRecord, RoomRole, RoomKind, ModeratorPermissions, ModAction, member, moderator,
  sub_administrator, administrator, ban, kick, mute, role_eq, is_admin_role, owned_by, role_in_room,
  count_role, can_moderate, role_from_str,
}

-- The handler goes on, or answers with an error text and stops.
pub data Verdict (A : Type 0) : Type 0 where
  allow : A → Verdict A
  refuse : String → Verdict A

pub Verdict-cases :
    {A : Type 0} (v : Verdict A) → ((e : String) × (v ≡ refuse e)) ⊎ ((a : A) × (v ≡ allow a))
Verdict-cases (refuse e) = inl (e, refl)
Verdict-cases (allow a) = inr (a, refl)

infixl 5 ◌>>=◌ ◌>>◌
abbrev pub ◌>>=◌ : {A B : Type 0} → Verdict A → (A → Verdict B) → Verdict B
allow a >>= f = f a
refuse e >>= f = refuse e

abbrev pub ◌>>◌ : {A B : Type 0} → Verdict A → Verdict B → Verdict B
m >> k = m >>= λ _. k

abbrev pub refuse_if : Bool → String → Verdict (Unit {0})
refuse_if true e = refuse e
refuse_if false e = allow tt

abbrev pub require : {A : Type 0} → Option A → String → Verdict A
require none e = refuse e
require (some a) e = allow a

-- A target's user id and name, or why there is none.
abbrev pub Target : Type 0
Target = Verdict (Text × Text)

abbrev pub max_room_moderators : ℕ
max_room_moderators = 5

abbrev pub max_room_sub_admins : ℕ
max_room_sub_admins = 3

abbrev pub min_timeout_secs : ℕ
min_timeout_secs = 60

abbrev pub max_timeout_secs : ℕ
max_timeout_secs = 604800

assign_role : RoomRole → Text → Assoc Text RoomRole → Assoc Text RoomRole
assign_role member target_id roles = remove target_id roles
assign_role role target_id roles = insert target_id role roles

unfoldable pub set_member_role_in :
    Text → Option RoomRole → Target → RoomRecord → Verdict RoomRecord
unfolding assign_role
set_member_role_in actor_id new_role target room = do
  refuse_if (not (is_admin_role (role_in_room room actor_id)))
      "Only administrators can manage roles"
  role ← require new_role "Invalid role"
  refuse_if (role_eq role administrator) "Use transfer ownership"
  (target_id, _) ← target
  refuse_if (target_id == actor_id) "You cannot change your own role"
  let current_role = role_in_room room target_id
  refuse_if (role_eq current_role administrator) "Cannot change the administrator's role"
  refuse_if
      (role_eq role moderator
        && (not (role_eq current_role moderator)
            && leb max_room_moderators (count_role room moderator)))
      "Moderator limit reached (5 max)"
  refuse_if
      (role_eq role sub_administrator
        && (not (role_eq current_role sub_administrator)
            && leb max_room_sub_admins (count_role room sub_administrator)))
      "Sub-administrator limit reached (3 max)"
  allow (record room { roles = assign_role role target_id room.roles })

unfoldable pub ban_member_in : Text → Target → RoomRecord → Verdict (Text × Text × RoomRecord)
ban_member_in actor_id target room = do
  (target_id, target_name) ← target
  refuse_if (target_id == actor_id) "You cannot target yourself"
  refuse_if (not (can_moderate room (role_in_room room actor_id) (role_in_room room target_id) ban))
      "You are not allowed to ban this member"
  allow (target_id, target_name, record room { banned = insert target_id target_name room.banned })

unfoldable pub unban_member_in : Text → Target → RoomRecord → Verdict RoomRecord
unban_member_in actor_id target room = do
  refuse_if (not (is_admin_role (role_in_room room actor_id))) "You are not allowed to unban"
  (target_id, _) ← target
  allow (record room { banned = remove target_id room.banned })

unfoldable pub kick_member_in : Text → Target → RoomRecord → Verdict (Text × Text)
kick_member_in actor_id target room = do
  (target_id, target_name) ← target
  refuse_if (target_id == actor_id) "You cannot target yourself"
  refuse_if
      (not (can_moderate room (role_in_room room actor_id) (role_in_room room target_id) kick))
      "You are not allowed to kick this member"
  allow (target_id, target_name)

-- `unwrap_or(MIN_TIMEOUT_SECS).clamp(MIN_TIMEOUT_SECS, MAX_TIMEOUT_SECS)`
unfoldable pub timeout_seconds : Option ℕ → ℕ
timeout_seconds duration =
    let s = unwrap_or duration min_timeout_secs in
    if ltb s min_timeout_secs
    then min_timeout_secs
    else if ltb max_timeout_secs s
    then max_timeout_secs
    else s

unfoldable pub timeout_member_in : Text → Target → Option ℕ → ℕ → RoomRecord → Verdict RoomRecord
timeout_member_in actor_id target duration now room = do
  (target_id, _) ← target
  refuse_if (target_id == actor_id) "You cannot target yourself"
  refuse_if
      (not (can_moderate room (role_in_room room actor_id) (role_in_room room target_id) mute))
      "You are not allowed to mute this member"
  allow (record room {
    timeouts = insert target_id (now + timeout_seconds duration * 1000) room.timeouts;
  })

unfoldable pub unmute_member_in : Text → Target → RoomRecord → Verdict RoomRecord
unmute_member_in actor_id target room = do
  (target_id, _) ← target
  refuse_if
      (not (can_moderate room (role_in_room room actor_id) (role_in_room room target_id) mute))
      "You are not allowed to unmute this member"
  allow (record room { timeouts = remove target_id room.timeouts })

unfoldable pub transfer_ownership_in : Text → Target → RoomRecord → Verdict RoomRecord
transfer_ownership_in actor_id target room = do
  refuse_if (not (owned_by room.owner_id actor_id)) "Only the owner can transfer the room"
  (target_id, _) ← target
  let target_role = role_in_room room target_id
  refuse_if (not (role_eq target_role moderator) && not (role_eq target_role sub_administrator))
      "The new owner must be a moderator or sub-administrator"
  refuse_if
      (not (role_eq target_role sub_administrator)
        && leb max_room_sub_admins (count_role room sub_administrator))
      "No sub-administrator slot available for the current owner"
  allow (record room {
    owner_id = some target_id;
    roles = insert actor_id sub_administrator (insert target_id administrator room.roles);
  })

unfoldable pub set_chat_lock_in : Text → Option Bool → RoomRecord → Verdict RoomRecord
set_chat_lock_in actor_id locked room = do
  refuse_if (not (is_admin_role (role_in_room room actor_id)))
      "You are not allowed to change chat mode"
  allow (record room { chat_locked = unwrap_or locked false })

unfoldable pub set_moderator_permissions_in :
    Text → Option ModeratorPermissions → RoomRecord → Verdict RoomRecord
set_moderator_permissions_in actor_id permissions room = do
  refuse_if (not (is_admin_role (role_in_room room actor_id)))
      "Only administrators can configure moderator permissions"
  p ← require permissions "Invalid permissions payload"
  allow (record room { mod_permissions = p })

unfoldable pub set_calls_enabled_in : Text → Option Bool → RoomRecord → Verdict RoomRecord
set_calls_enabled_in actor_id enabled room = do
  refuse_if (not (is_admin_role (role_in_room room actor_id)))
      "You are not allowed to change call mode"
  allow (record room { calls_enabled = unwrap_or enabled true })
