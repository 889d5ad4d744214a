-- ===== src/Room/Decide/Transfer.antt =====
-- A transfer of ownership.
use mathlib.Core.Path.{subst}
use lqxp.Common.{
  ◌+◌, ◌≤◌, ◌<◌, ◌≡◌, refl, sym, ◌≢◌, ◌⊎◌, inl, inr, true, some, arith, if◌then◌else◌, Option-cases,
  ◌==◌, eq_law, Assoc, unwrap_or, count, lookup, insert, lookup-insert, insert-Distinct,
  count-remove, Text, text_Eq,
}
use Prim.Native.String.{String}
use lqxp.Room.Record.{
  RoomRecord, RoomRole, member, moderator, sub_administrator, administrator, role_eq, owned_by,
  role_in_room, count_role,
}
use lqxp.Room.Record.Roles.{RolesOk, count-insert, count-insert_other, lookup_of_role}
use lqxp.Room.Decide.{allow, refuse, Target, transfer_ownership_in}

abbrev transferred : RoomRecord → Text → Text → RoomRecord
transferred room actor_id target_id = record room {
  owner_id = some target_id;
  roles = insert actor_id sub_administrator (insert target_id administrator room.roles);
}

owner_of :
    (room : RoomRecord) (user : Text)
    → owned_by room.owner_id user ≡ true
    → room.owner_id ≡ some user
owner_of room user h = elim (Option-cases room.owner_id) [
  | inl e ↦ ground (arith, e)
  | inr (owner, e) ↦ ground (arith, e, eq_law owner user)
]

transfer_parts :
    (room room' : RoomRecord) (actor_id target_id name : Text)
    → transfer_ownership_in actor_id (allow (target_id, name)) room ≡ allow room'
    → (room.owner_id ≡ some actor_id)
      × ((role_in_room room target_id ≡ sub_administrator)
          ⊎ ((role_in_room room target_id ≡ moderator) × (count_role room sub_administrator < 3)))
      × (room' ≡ transferred room actor_id target_id)
unfolding transfer_ownership_in
transfer_parts room room' actor_id target_id name h =
    (owner_of room actor_id (ground arith), ground arith, ground arith)

transfer_no_target :
    (room room' : RoomRecord) (actor_id : Text) (e : String)
    → transfer_ownership_in actor_id (refuse e) room ≢ allow room'
unfolding transfer_ownership_in
transfer_no_target room room' actor_id e = λ h. ground arith

promoted :
    (key : Text) (roles : Assoc Text RoomRole)
    → lookup key roles ≡ some sub_administrator
    → count (λ current. role_eq current sub_administrator) (insert key administrator roles) + 1
      ≤ count (λ current. role_eq current sub_administrator) roles
unfolding count insert
promoted key roles h = omega (
  arith,
  count-remove (λ current. role_eq current sub_administrator) key sub_administrator roles h refl,
)

sub_admins_after :
    (room : RoomRecord) (actor_id target_id : Text)
    → RolesOk room
    → (role_in_room room target_id ≡ sub_administrator)
      ⊎ ((role_in_room room target_id ≡ moderator) × (count_role room sub_administrator < 3))
    → count_role (transferred room actor_id target_id) sub_administrator ≤ 3
unfolding count_role
sub_admins_after room actor_id target_id ok_ (inl sub) = omega (
  arith,
  ok_.sub_administrators,
  count-insert sub_administrator sub_administrator actor_id
      (insert target_id administrator room.roles),
  promoted target_id room.roles
      (lookup_of_role room target_id sub_administrator sub (λ e. cc) (λ e. cc)),
)
sub_admins_after room actor_id target_id ok_ (inr (_, free)) = omega (
  arith,
  free,
  count-insert sub_administrator sub_administrator actor_id
      (insert target_id administrator room.roles),
  count-insert_other sub_administrator administrator target_id room.roles refl,
)

moderators_after :
    (room : RoomRecord) (actor_id target_id : Text)
    → RolesOk room
    → count_role (transferred room actor_id target_id) moderator ≤ 5
unfolding count_role
moderators_after room actor_id target_id ok_ = omega (
  arith,
  ok_.moderators,
  count-insert_other moderator sub_administrator actor_id
      (insert target_id administrator room.roles) refl,
  count-insert_other moderator administrator target_id room.roles refl,
)

administrator_after :
    (room : RoomRecord) (actor_id target_id user : Text)
    → RolesOk room
    → room.owner_id ≡ some actor_id
    → lookup user (insert actor_id sub_administrator (insert target_id administrator room.roles))
      ≡ some administrator
    → some target_id ≡ some user
administrator_after room actor_id target_id user ok_ owner h = ground (
  arith,
  h,
  owner,
  eq_law actor_id user,
  eq_law target_id user,
  lookup-insert actor_id user sub_administrator (insert target_id administrator room.roles),
  lookup-insert target_id user administrator room.roles,
  ok_.one_administrator user,
)

-- A transfer keeps the limits of five moderators and three sub-administrators, and leaves the new
-- owner as the only administrator.
pub transfer_ownership_in-RolesOk :
    (room room' : RoomRecord) (actor_id : Text) (target : Target)
    → RolesOk room
    → transfer_ownership_in actor_id target room ≡ allow room'
    → RolesOk room'
transfer_ownership_in-RolesOk room room' actor_id (refuse e) ok_ h =
    absurd (transfer_no_target room room' actor_id e h)
transfer_ownership_in-RolesOk room room' actor_id (allow (target_id, name)) ok_ h =
    let (owner, role, e) = transfer_parts room room' actor_id target_id name h in
    subst RolesOk (sym e) (record {
      distinct =
          insert-Distinct actor_id sub_administrator (insert target_id administrator room.roles)
            (insert-Distinct target_id administrator room.roles ok_.distinct);
      moderators = moderators_after room actor_id target_id ok_;
      sub_administrators = sub_admins_after room actor_id target_id ok_ role;
      one_administrator = λ user. administrator_after room actor_id target_id user ok_ owner;
    })

transferred_roles :
    (room : RoomRecord) (actor_id target_id user : Text)
    → actor_id ≢ target_id
    → role_in_room (transferred room actor_id target_id) user ≡ (
        if target_id == user
        then administrator
        else if actor_id == user
        then sub_administrator
        else unwrap_or (lookup user room.roles) member)
unfolding role_in_room
transferred_roles room actor_id target_id user ne = ground (
  arith,
  ne,
  eq_law actor_id user,
  eq_law target_id user,
  lookup-insert actor_id user sub_administrator (insert target_id administrator room.roles),
  lookup-insert target_id user administrator room.roles,
)

other_than_owner :
    (room : RoomRecord) (actor_id target_id : Text)
    → room.owner_id ≡ some actor_id
    → (role_in_room room target_id ≡ sub_administrator)
      ⊎ ((role_in_room room target_id ≡ moderator) × (count_role room sub_administrator < 3))
    → actor_id ≢ target_id
unfolding role_in_room
other_than_owner room actor_id target_id owner role =
    λ e. ground (arith, owner, e, eq_law actor_id target_id, role)

-- A transfer that is allowed makes the target the administrator and the old owner, who is another
-- user, a sub-administrator, and leaves the role of everybody else and the bans as they were.
pub transfer_ownership_in_roles :
    (room room' : RoomRecord) (actor_id target_id name user : Text)
    → transfer_ownership_in actor_id (allow (target_id, name)) room ≡ allow room'
    → (actor_id ≢ target_id)
      × (role_in_room room' user ≡ (
          if target_id == user
          then administrator
          else if actor_id == user
          then sub_administrator
          else role_in_room room user))
      × (room'.banned ≡ room.banned)
transfer_ownership_in_roles room room' actor_id target_id name user h =
    let (owner, role, e) = transfer_parts room room' actor_id target_id name h in
    let ne = other_than_owner room actor_id target_id owner role in
    (
      ne,
      rw e (
          rw (transferred_roles room actor_id target_id user ne) (
            unfold role_in_room in
            ground (arith, owner, eq_law target_id user, eq_law actor_id user))),
      rw e,
    )
