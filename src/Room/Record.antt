-- ===== src/Room/Record.antt =====
-- `RoomRecord` of core/models.rs, and the predicates on it of websocket/protocol.rs.
pub mod Roles
pub mod Names
use lqxp.Common.{
  ℕ, ◌-◌, ◌/◌, Bool, true, false, ◌||◌, not, Option, none, some, List, [], ltb, if◌then◌else◌, ◌==◌,
  Assoc, unwrap_or, count, lookup, contains_key, Text, text, to_ascii_lowercase, text_Eq,
}

pub data RoomKind : Type 0 where
  classic community : RoomKind

pub data RoomRole : Type 0 where
  member moderator sub_administrator administrator : RoomRole

pub record ModeratorPermissions : Type 0 where
  pub can_ban : Bool
  pub can_kick : Bool
  pub can_mute : Bool
  pub can_delete : Bool

pub record StoredFile : Type 0 where
  pub id : Text
  pub url : Text
  pub size : ℕ
  pub mime_type : Text

-- `RoomIcon` is a flattened `StoredFile`.
pub record RoomRecord : Type 0 where
  pub room_id : Text
  pub title : Text
  pub icon : Option StoredFile
  pub members : List Text
  pub kind : RoomKind
  pub description : Text
  pub owner_id : Option Text
  pub chat_locked : Bool
  pub roles : Assoc Text RoomRole
  pub banned : Assoc Text Text
  pub timeouts : Assoc Text ℕ
  pub mod_permissions : ModeratorPermissions
  pub calls_enabled : Bool

abbrev pub default_permissions : ModeratorPermissions
default_permissions = record { can_ban = true; can_kick = true; can_mute = true; can_delete = true }

abbrev pub default_room : RoomRecord
default_room = record {
  room_id = [];
  title = [];
  icon = none;
  members = [];
  kind = classic;
  description = [];
  owner_id = none;
  chat_locked = false;
  roles = [];
  banned = [];
  timeouts = [];
  mod_permissions = default_permissions;
  calls_enabled = true;
}

abbrev pub role_eq : RoomRole → RoomRole → Bool
role_eq member member = true
role_eq moderator moderator = true
role_eq sub_administrator sub_administrator = true
role_eq administrator administrator = true
role_eq _ _ = false

abbrev pub is_community : RoomKind → Bool
is_community community = true
is_community classic = false

-- `room.owner_id.as_deref() == Some(user_id)`
abbrev pub owned_by : Option Text → Text → Bool
owned_by none user_id = false
owned_by (some owner) user_id = owner == user_id

unfoldable pub role_in_room : RoomRecord → Text → RoomRole
role_in_room room user_id =
    if owned_by room.owner_id user_id
    then administrator
    else unwrap_or (lookup user_id room.roles) member

unfoldable pub count_role : RoomRecord → RoomRole → ℕ
count_role room role = count (λ current. role_eq current role) room.roles

-- `role == Administrator || role == SubAdministrator`
abbrev pub is_admin_role : RoomRole → Bool
is_admin_role role = role_eq role administrator || role_eq role sub_administrator

abbrev expires_after : Option ℕ → ℕ → Bool
expires_after none now = false
expires_after (some expiry) now = ltb now expiry

unfoldable pub can_speak : RoomRecord → Text → ℕ → Bool
unfolding role_in_room
can_speak room user_id now =
    if contains_key user_id room.banned
    then false
    else if expires_after (lookup user_id room.timeouts) now
    then false
    else if room.chat_locked
    then is_admin_role (role_in_room room user_id)
    else true

pub data ModAction : Type 0 where
  ban kick mute : ModAction

abbrev permitted : ModeratorPermissions → ModAction → Bool
permitted p ban = p.can_ban
permitted p kick = p.can_kick
permitted p mute = p.can_mute

unfoldable pub can_moderate : RoomRecord → RoomRole → RoomRole → ModAction → Bool
can_moderate room administrator target action = true
can_moderate room sub_administrator target action = not (role_eq target administrator)
can_moderate room moderator target action =
    if not (role_eq target member) then false else permitted room.mod_permissions action
can_moderate room member target action = false

unfoldable pub role_to_str : RoomRole → Text
role_to_str member = text "member"
role_to_str moderator = text "moderator"
role_to_str sub_administrator = text "subAdmin"
role_to_str administrator = text "administrator"

-- The names that `role_from_str` knows, in lower case.
role_named : Text → Option RoomRole
role_named s =
    if s == text "member"
    then some member
    else if s == text "moderator"
    then some moderator
    else if (s == text "subadmin") || ((s == text "sub-admin") || (s == text "subadministrator"))
    then some sub_administrator
    else if (s == text "administrator") || (s == text "admin")
    then some administrator
    else none

-- `trim` is `str::trim`.
unfoldable pub role_from_str : (Text → Text) → Text → Option RoomRole
unfolding role_named
role_from_str trim value = role_named (to_ascii_lowercase (trim value))
