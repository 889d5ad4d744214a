-- ===== src/Room/Decide/Limits.antt =====
-- The roles of a room under the operations that change them.
use lqxp.Common.{
  ℕ, ◌+◌, ◌≤◌, ◌≡◌, refl, sym, ◌≢◌, inl, inr, true, false, Option, none, some, arith, Bool-cases,
  eq_law, count, lookup, remove, insert, lookup-remove, lookup-insert, remove-Distinct,
  insert-Distinct, count-remove-le, Text, text_Eq,
}
use mathlib.Core.Path.{subst}
use lqxp.Room.Record.{
  RoomRecord, RoomRole, member, moderator, sub_administrator, administrator, role_eq, role_in_room,
  count_role,
}
use lqxp.Room.Record.Roles.{
  RolesOk, count-insert, count-insert_other, count-insert_same, lookup_of_role,
}
use lqxp.Room.Decide.{allow, refuse, Target, assign_role, set_member_role_in}

inserted_administrator :
    (room : RoomRecord) (role : RoomRole) (key user : Text)
    → RolesOk room
    → role ≢ administrator
    → lookup user (insert key role room.roles) ≡ some administrator
    → room.owner_id ≡ some user
inserted_administrator room role key user ok_ r h =
    ok_.one_administrator user
      (ground (arith, r, eq_law key user, lookup-insert key user role room.roles, h))

removed_administrator :
    (room : RoomRecord) (key user : Text)
    → RolesOk room
    → lookup user (remove key room.roles) ≡ some administrator
    → room.owner_id ≡ some user
removed_administrator room key user ok_ h =
    ok_.one_administrator user
      (ground (arith, eq_law key user, lookup-remove key user room.roles, h))

-- The guard of `set_member_role` on one limit.
abbrev Fits : RoomRecord → RoomRole → RoomRole → ℕ → Type 0
Fits room role current limit = (role_eq current role ≡ false → count_role room role + 1 ≤ limit)

eq_of_role_eq : (a b : RoomRole) → role_eq a b ≡ true → a ≡ b
eq_of_role_eq a b h = ground arith

role_eq_refl : (a : RoomRole) → role_eq a a ≡ true
role_eq_refl a = ground arith

inserted_count :
    (room : RoomRecord) (role : RoomRole) (key : Text) (limit : ℕ)
    → role ≢ administrator
    → role ≢ member
    → count_role room role ≤ limit
    → Fits room role (role_in_room room key) limit
    → count (λ current. role_eq current role) (insert key role room.roles) ≤ limit
unfolding count_role
inserted_count room role key limit a m b fits =
    elim (Bool-cases (role_eq (role_in_room room key) role)) [
      | inl same ↦ omega (
        arith,
        count-insert_same role role role key room.roles
            (lookup_of_role room key role (eq_of_role_eq _ _ same) a m) (role_eq_refl role),
      )
      | inr new ↦ omega (arith, fits new, count-insert role role key room.roles)
    ]

assigned-RolesOk :
    (room : RoomRecord) (role : RoomRole) (key : Text)
    → RolesOk room
    → role ≢ administrator
    → (role ≡ moderator → Fits room moderator (role_in_room room key) 5)
    → (role ≡ sub_administrator → Fits room sub_administrator (role_in_room room key) 3)
    → RolesOk (record room { roles = assign_role role key room.roles })
unfolding assign_role count_role
assigned-RolesOk room member key ok_ r m s = record {
  distinct = remove-Distinct key room.roles ok_.distinct;
  moderators = ground (
    arith,
    ok_.moderators,
    count-remove-le (λ current. role_eq current moderator) key room.roles,
  );
  sub_administrators = ground (
    arith,
    ok_.sub_administrators,
    count-remove-le (λ current. role_eq current sub_administrator) key room.roles,
  );
  one_administrator = λ user h. removed_administrator room key user ok_ h;
}
assigned-RolesOk room moderator key ok_ r m s = record {
  distinct = insert-Distinct key moderator room.roles ok_.distinct;
  moderators = inserted_count room moderator key 5 (λ e. cc) (λ e. cc) ok_.moderators (m refl);
  sub_administrators = ground (
    arith,
    ok_.sub_administrators,
    count-insert_other sub_administrator moderator key room.roles refl,
  );
  one_administrator = λ user h. inserted_administrator room moderator key user ok_ r h;
}
assigned-RolesOk room sub_administrator key ok_ r m s = record {
  distinct = insert-Distinct key sub_administrator room.roles ok_.distinct;
  moderators =
      ground
        (arith, ok_.moderators, count-insert_other moderator sub_administrator key room.roles refl);
  sub_administrators =
      inserted_count room sub_administrator key 3 (λ e. cc) (λ e. cc) ok_.sub_administrators
        (s refl);
  one_administrator = λ user h. inserted_administrator room sub_administrator key user ok_ r h;
}
assigned-RolesOk room administrator key ok_ r m s = absurd (r refl)

set_role_parts :
    (room room' : RoomRecord) (actor_id : Text) (new_role : Option RoomRole) (target : Target)
    → set_member_role_in actor_id new_role target room ≡ allow room'
    → (role : RoomRole) × (key : Text) × (role ≢ administrator)
      × (role ≡ moderator → Fits room moderator (role_in_room room key) 5)
      × (role ≡ sub_administrator → Fits room sub_administrator (role_in_room room key) 3)
      × (room' ≡ record room { roles = assign_role role key room.roles })
unfolding set_member_role_in
set_role_parts room room' actor_id none target h = ground arith
set_role_parts room room' actor_id (some role) (refuse e) h = ground arith
set_role_parts room room' actor_id (some role) (allow (key, name)) h =
    (role, key, ground arith, (λ e new. ground arith), (λ e new. ground arith), ground arith)

-- The operation that sets a role keeps the limits of five moderators and three sub-administrators,
-- and makes nobody but the owner an administrator.
pub set_member_role_in-RolesOk :
    (room room' : RoomRecord) (actor_id : Text) (new_role : Option RoomRole) (target : Target)
    → RolesOk room
    → set_member_role_in actor_id new_role target room ≡ allow room'
    → RolesOk room'
set_member_role_in-RolesOk room room' actor_id new_role target ok_ h =
    let (role, key, r, m, s, e) = set_role_parts room room' actor_id new_role target h in
    subst RolesOk (sym e) (assigned-RolesOk room role key ok_ r m s)
