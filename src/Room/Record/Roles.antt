-- ===== src/Room/Record/Roles.antt =====
-- How the roles of a room are counted when one changes.
use lqxp.Common.{
  ◌+◌, ◌≤◌, ◌≡◌, ◌≢◌, true, false, some, arith, Assoc, count, lookup, insert, Distinct,
  count-remove-le, count-remove, Text, text_Eq,
}
use lqxp.Room.Record.{
  RoomRecord, RoomRole, member, moderator, sub_administrator, administrator, role_eq, role_in_room,
  count_role,
}

-- The names of one user at most per role limit, and one administrator: the owner.
pub record RolesOk (room : RoomRecord) : Type 0 where
  pub distinct : Distinct room.roles
  pub moderators : count_role room moderator ≤ 5
  pub sub_administrators : count_role room sub_administrator ≤ 3
  pub one_administrator :
      (user : Text) → lookup user room.roles ≡ some administrator → room.owner_id ≡ some user

-- After a change of one key, a count grows by one at most, and not at all for another role or where
-- the key had the role.
pub count-insert :
    (role new : RoomRole) (key : Text) (roles : Assoc Text RoomRole)
    → count (λ current. role_eq current role) (insert key new roles)
      ≤ count (λ current. role_eq current role) roles + 1
unfolding count insert
count-insert role new key roles =
    ground (arith, count-remove-le (λ current. role_eq current role) key roles)

pub count-insert_other :
    (role new : RoomRole) (key : Text) (roles : Assoc Text RoomRole)
    → role_eq new role ≡ false
    → count (λ current. role_eq current role) (insert key new roles)
      ≤ count (λ current. role_eq current role) roles
unfolding count insert
count-insert_other role new key roles h =
    ground (arith, count-remove-le (λ current. role_eq current role) key roles)

pub count-insert_same :
    (role new old : RoomRole) (key : Text) (roles : Assoc Text RoomRole)
    → lookup key roles ≡ some old
    → role_eq old role ≡ true
    → count (λ current. role_eq current role) (insert key new roles)
      ≤ count (λ current. role_eq current role) roles
unfolding count insert
count-insert_same role new old key roles h t =
    ground (arith, count-remove (λ current. role_eq current role) key old roles)

-- A role other than member and administrator is one that the map holds.
pub lookup_of_role :
    (room : RoomRecord) (user : Text) (role : RoomRole)
    → role_in_room room user ≡ role
    → role ≢ administrator
    → role ≢ member
    → lookup user room.roles ≡ some role
unfolding role_in_room
lookup_of_role room user role h a m = ground (arith, a, m)
