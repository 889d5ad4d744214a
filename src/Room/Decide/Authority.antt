-- ===== src/Room/Decide/Authority.antt =====
-- Who may do what to whom.
use lqxp.Common.{
  ℕ, ◌+◌, ◌*◌, ◌≤◌, ◌<◌, ◌≡◌, refl, ap, ◌∙◌, ◌≢◌, inl, inr, Bool, false, Option, some, arith,
  if◌then◌else◌, Bool-cases, Option-cases, ◌==◌, eq_law, unwrap_or, lookup, insert, contains_key,
  lookup-insert, lookup_self, Text, text_Eq,
}
use lqxp.Room.Record.{
  RoomRecord, RoomRole, ModeratorPermissions, member, moderator, sub_administrator, administrator,
  ban, kick, mute, owned_by, role_in_room, can_moderate, can_speak,
}
use lqxp.Room.Record.Roles.{RolesOk}
use lqxp.Room.Decide.{
  allow, refuse, Target, set_member_role_in, ban_member_in, unban_member_in, kick_member_in,
  timeout_member_in, unmute_member_in, set_chat_lock_in, set_moderator_permissions_in,
  set_calls_enabled_in, transfer_ownership_in, timeout_seconds, min_timeout_secs, max_timeout_secs,
}

owner_role :
    (room : RoomRecord) (owner : Text)
    → room.owner_id ≡ some owner
    → role_in_room room owner ≡ administrator
unfolding role_in_room
owner_role room owner h = ground (arith, h, eq_law owner owner)

-- Nobody but the owner has the administrator's role.
owner_of_administrator :
    (room : RoomRecord) (user : Text)
    → RolesOk room
    → role_in_room room user ≡ administrator
    → room.owner_id ≡ some user
unfolding role_in_room
owner_of_administrator room user ok_ h = elim (Option-cases room.owner_id) [
  | inl e ↦ ok_.one_administrator user (listed room user (ground (arith, e)))
  | inr (owner, e) ↦ elim (Bool-cases (owner == user)) [
    | inl own ↦ e ∙ ap some ((eq_law owner user).0 own)
    | inr other ↦ ok_.one_administrator user (listed room user (ground (arith, e, other)))
  ]
]
  where
    listed :
        (room : RoomRecord) (user : Text)
        → unwrap_or (lookup user room.roles) member ≡ administrator
        → lookup user room.roles ≡ some administrator
    listed room user h = ground arith

same_administrator :
    (room : RoomRecord) (owner actor_id : Text)
    → RolesOk room
    → room.owner_id ≡ some owner
    → role_in_room room actor_id ≡ administrator
    → owner ≡ actor_id
same_administrator room owner actor_id ok_ o h =
    ground (arith, o, owner_of_administrator room actor_id ok_ h)

-- An actor other than the owner may not moderate the owner.
owner_untouchable :
    (room : RoomRecord) (owner actor_id : Text)
    → RolesOk room
    → room.owner_id ≡ some owner
    → (owner == actor_id) ≡ false
    → (can_moderate room (role_in_room room actor_id) administrator ban ≡ false)
      × (can_moderate room (role_in_room room actor_id) administrator kick ≡ false)
      × (can_moderate room (role_in_room room actor_id) administrator mute ≡ false)
unfolding can_moderate
owner_untouchable room owner actor_id ok_ o ne =
    not_admin (role_in_room room actor_id)
      (λ h. ground (arith, eq_law owner actor_id, same_administrator room owner actor_id ok_ o h))
  where
    not_admin :
        (role : RoomRole)
        → (role ≡ administrator → ⊥)
        → (can_moderate room role administrator ban ≡ false)
          × (can_moderate room role administrator kick ≡ false)
          × (can_moderate room role administrator mute ≡ false)
    not_admin member n = (refl, refl, refl)
    not_admin moderator n = (refl, refl, refl)
    not_admin sub_administrator n = (refl, refl, refl)
    not_admin administrator n = absurd (n refl)

-- In a room with well-formed roles no one, the owner included, can ban, kick or time out the owner
-- or change the owner's role.
pub owner_is_safe :
    (room : RoomRecord) (owner actor_id name : Text) (new_role : Option RoomRole)
    (duration : Option ℕ) (now : ℕ) (b : Text × Text × RoomRecord) (k : Text × Text)
    (r : RoomRecord)
    → RolesOk room
    → room.owner_id ≡ some owner
    → (ban_member_in actor_id (allow (owner, name)) room ≢ allow b)
      × (kick_member_in actor_id (allow (owner, name)) room ≢ allow k)
      × (timeout_member_in actor_id (allow (owner, name)) duration now room ≢ allow r)
      × (set_member_role_in actor_id new_role (allow (owner, name)) room ≢ allow r)
unfolding ban_member_in kick_member_in timeout_member_in set_member_role_in
owner_is_safe room owner actor_id name new_role duration now b k r ok_ o =
    let role = owner_role room owner o in
    (
      (λ h. ground (arith, h, role, owner_untouchable room owner actor_id ok_ o)),
      (λ h. ground (arith, h, role, owner_untouchable room owner actor_id ok_ o)),
      (λ h. ground (arith, h, role, owner_untouchable room owner actor_id ok_ o)),
      (λ h. ground (arith, h, role)),
    )

member_owns_nothing :
    (room : RoomRecord) (user : Text)
    → role_in_room room user ≡ member
    → owned_by room.owner_id user ≡ false
unfolding role_in_room
member_owns_nothing room user h = ground (arith, h)

-- The ten decisions of this model on roles, bans, kicks, timeouts, chat lock, moderator permissions,
-- call mode and the transfer of a room all refuse a plain member, whatever the target.
pub member_is_powerless :
    (room : RoomRecord) (actor_id target_id name : Text) (new_role : Option RoomRole)
    (duration : Option ℕ) (now : ℕ) (flag : Option Bool) (p : Option ModeratorPermissions)
    (b : Text × Text × RoomRecord) (k : Text × Text) (r : RoomRecord)
    → role_in_room room actor_id ≡ member
    → (ban_member_in actor_id (allow (target_id, name)) room ≢ allow b)
      × (kick_member_in actor_id (allow (target_id, name)) room ≢ allow k)
      × (timeout_member_in actor_id (allow (target_id, name)) duration now room ≢ allow r)
      × (unmute_member_in actor_id (allow (target_id, name)) room ≢ allow r)
      × (unban_member_in actor_id (allow (target_id, name)) room ≢ allow r)
      × (set_member_role_in actor_id new_role (allow (target_id, name)) room ≢ allow r)
      × (set_chat_lock_in actor_id flag room ≢ allow r)
      × (set_moderator_permissions_in actor_id p room ≢ allow r)
      × (set_calls_enabled_in actor_id flag room ≢ allow r)
      × (transfer_ownership_in actor_id (allow (target_id, name)) room ≢ allow r)
unfolding ban_member_in kick_member_in timeout_member_in unmute_member_in unban_member_in
    set_member_role_in set_chat_lock_in set_moderator_permissions_in set_calls_enabled_in
    transfer_ownership_in can_moderate
member_is_powerless room actor_id target_id name new_role duration now flag p b k r h = (
  (λ e. ground (arith, h, e)),
  (λ e. ground (arith, h, e)),
  (λ e. ground (arith, h, e)),
  (λ e. ground (arith, h, e)),
  (λ e. ground (arith, h, e)),
  (λ e. ground (arith, h, e)),
  (λ e. ground (arith, h, e)),
  (λ e. ground (arith, h, e)),
  (λ e. ground (arith, h, e)),
  (λ e. ground (arith, member_owns_nothing room actor_id h, e)),
)

-- After a ban that is allowed the target cannot speak at any time, and the record's bans are the
-- old ones with the target's.
pub banned_cannot_speak :
    (room room' : RoomRecord) (actor_id : Text) (target : Target) (key name user : Text) (now : ℕ)
    → ban_member_in actor_id target room ≡ allow (key, name, room')
    → (can_speak room' key now ≡ false)
      × (lookup user room'.banned ≡ (if key == user then some name else lookup user room.banned))
unfolding ban_member_in can_speak contains_key
banned_cannot_speak room room' actor_id (refuse e) key name user now h = absurd (ground (arith, h))
banned_cannot_speak room room' actor_id (allow (t, n)) key name user now h =
    let e : room'.banned ≡ insert key name room.banned = ground (arith, h) in
    (
      rw e (ground (arith, lookup_self key name room.banned)),
      rw e (lookup-insert key user name room.banned),
    )

-- A timeout that is allowed lasts at least a minute and at most a week, whatever the request asked
-- for, and until its end the target cannot speak.
pub timeout_silences :
    (room room' : RoomRecord) (actor_id key name : Text) (duration : Option ℕ) (now later : ℕ)
    → timeout_member_in actor_id (allow (key, name)) duration now room ≡ allow room'
    → later < now + timeout_seconds duration * 1000
    → (min_timeout_secs ≤ timeout_seconds duration)
      × (timeout_seconds duration ≤ max_timeout_secs)
      × (lookup key room'.timeouts ≡ some (now + timeout_seconds duration * 1000))
      × (can_speak room' key later ≡ false)
unfolding timeout_member_in can_speak timeout_seconds
timeout_silences room room' actor_id key name duration now later h l =
    let e : room'.timeouts ≡ insert key (now + timeout_seconds duration * 1000) room.timeouts =
      ground (arith, h) in
    let k : lookup key room'.timeouts ≡ some (now + timeout_seconds duration * 1000) =
      rw e (lookup_self key _ room.timeouts) in
    (ground arith, ground arith, k, ground (arith, k, l))
