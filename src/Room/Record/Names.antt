-- ===== src/Room/Record/Names.antt =====
-- The names of the roles.
use lqxp.Common.{◌≡◌, refl, some, Text, text, text_eq, to_ascii_lowercase, text_Eq}
use lqxp.Room.Record.{
  RoomRole, member, moderator, sub_administrator, administrator, role_to_str, role_named,
  role_from_str,
}

-- Every role is read back from the name that is printed for it, if `trim` leaves that name as it
-- is.
pub role_from_str-role_to_str :
    (trim : Text → Text) (role : RoomRole)
    → trim (role_to_str role) ≡ role_to_str role
    → role_from_str trim (role_to_str role) ≡ some role
unfolding role_from_str role_named role_to_str text text_eq to_ascii_lowercase
role_from_str-role_to_str trim member h = rw h refl
role_from_str-role_to_str trim moderator h = rw h refl
role_from_str-role_to_str trim sub_administrator h = rw h refl
role_from_str-role_to_str trim administrator h = rw h refl
