-- ===== src/Room/Handlers/Effects/Roles.antt =====
-- The roles of every stored room, under any sequence of operations.
use lqxp.Common.{
  ℕ, ◌≡◌, refl, sym, ap, ◌∙◌, inl, inr, some, arith, Bool-cases, Option-cases, ◌==◌, Assoc, count,
  lookup, insert, lookup-insert, Distinct, Text, text_Eq,
}
use mathlib.Core.Path.{subst}
use Prim.Native.String.{String}
use lqxp.Room.Record.{RoomRecord, count_role, default_room}
use lqxp.Room.Record.Roles.{RolesOk}
use lqxp.Room.Decide.{Verdict, allow, refuse, ban_member_in, kick_member_in, Target}
use lqxp.Room.Server.{
  Server, Env, Request, respond_to_sender, respond_error, broadcast_to_room, room_record,
  set_room_record, resolve_target, and_then,
}
use lqxp.Room.Handlers.Effects.{persist_lem}
use lqxp.Room.Handlers.{
  operation, Operation, change, enter, expel, persist, sync_room_record, synced,
  remove_user_from_room, ban_member, kick_member,
}
use lqxp.Room.Handlers.Effects.{enter_lem, change_cases}

-- Every stored room has well-formed roles.
abbrev pub AllRolesOk : Assoc Text RoomRecord → Type 0
AllRolesOk rooms =
    (room_id : Text) (room : RoomRecord) → lookup room_id rooms ≡ some room → RolesOk room

-- A change of other fields keeps the roles well formed.
pub kept-RolesOk :
    (room room' : RoomRecord)
    → room'.roles ≡ room.roles
    → room'.owner_id ≡ room.owner_id
    → RolesOk room
    → RolesOk room'
unfolding count_role
kept-RolesOk room room' r o k = record {
  distinct = subst Distinct (sym r) k.distinct;
  moderators = rw r k.moderators;
  sub_administrators = rw r k.sub_administrators;
  one_administrator = λ user h. o ∙ k.one_administrator user (sym (ap (lookup user) r) ∙ h);
}

new-RolesOk :
    (room_id : Text) → RolesOk (record default_room { room_id = room_id; title = room_id })
unfolding count_role count lookup
new-RolesOk room_id = record {
  distinct = tt;
  moderators = omega arith;
  sub_administrators = omega arith;
  one_administrator = λ user h. cc;
}

pub inserted-AllRolesOk :
    (rooms : Assoc Text RoomRecord) (room_id : Text) (changed : RoomRecord)
    → AllRolesOk rooms
    → RolesOk changed
    → AllRolesOk (insert room_id changed rooms)
inserted-AllRolesOk rooms key changed all_ok good room_id room h =
    elim (Bool-cases (key == room_id)) [
      | inl hit ↦
          subst RolesOk (ground (arith, h, hit, lookup-insert key room_id changed rooms)) good
      | inr miss ↦
          all_ok room_id room (ground (arith, h, miss, lookup-insert key room_id changed rooms))
    ]

module _ (trim : Text → Text) (env : Env) where
  pub change-AllRolesOk :
      (o : Operation) (failed : String) (session_id : Text) (req : Request)
      (decide : Text → Server → RoomRecord → Verdict RoomRecord) (s : Server)
      → ((actor_id : Text) (t : Server) (room room' : RoomRecord)
          → RolesOk room
          → decide actor_id t room ≡ allow room'
          → RolesOk room')
      → AllRolesOk s.rooms
      → AllRolesOk (change trim env o failed session_id req decide s).1.rooms
  change-AllRolesOk o failed session_id req decide s keeps all_ok =
      elim (change_cases trim env o failed session_id req decide s) [
        | inl stopped ↦ subst AllRolesOk (sym stopped.1) all_ok
        | inr (actor_id, (room_id, room, changed, stored, allowed, wrote, _)) ↦
            subst AllRolesOk (sym wrote) (
              inserted-AllRolesOk s.rooms room_id changed all_ok
                (keeps actor_id _ room changed (all_ok room_id room stored) allowed))
      ]

  synced-RolesOk :
      (room_id : Text) (s : Server) → AllRolesOk s.rooms → RolesOk (synced trim env room_id s)
  unfolding synced
  synced-RolesOk room_id s all_ok = elim (Option-cases (room_record env.sync_read_ok room_id s)) [
    | inl e ↦ rw e (kept-RolesOk _ _ refl refl (new-RolesOk room_id))
    | inr (room, e) ↦ rw e (kept-RolesOk room _ refl refl (all_ok room_id room (ground (arith, e))))
  ]

  expel-AllRolesOk :
      (session_id : Text) (op : ℕ) (room_id : Text) (room : RoomRecord)
      (target_id target_name : Text) (reason : String) (s : Server)
      → AllRolesOk s.rooms
      → AllRolesOk
          (expel trim env session_id op room_id room target_id target_name reason s).1.rooms
  unfolding expel respond_to_sender broadcast_to_room set_room_record remove_user_from_room
      sync_room_record
  expel-AllRolesOk session_id op room_id room target_id target_name reason s all_ok =
      let left = remove_user_from_room room_id target_id reason s in
      elim (Bool-cases env.sync_write_ok) [
        | inl w ↦ subst AllRolesOk (ground (arith, w)) (
            inserted-AllRolesOk s.rooms room_id (synced trim env room_id left) all_ok
              (synced-RolesOk room_id left all_ok))
        | inr f ↦ subst AllRolesOk (ground (arith, f)) all_ok
      ]

  banned-AllRolesOk :
      (session_id : Text) (room_id : Text) (banned : RoomRecord) (target_id target_name : Text)
      (s : Server)
      → AllRolesOk s.rooms
      → RolesOk banned
      → AllRolesOk
          (and_then (persist trim env session_id 43 room_id banned "Failed to persist ban" s) (λ _.
            expel trim env session_id 43 room_id banned target_id target_name "banned")).1.rooms
  unfolding set_room_record
  banned-AllRolesOk session_id room_id banned target_id target_name s all_ok good =
      elim (persist_lem trim env session_id 43 room_id banned "Failed to persist ban" s) [
        | inl (stop, same, _) ↦ subst AllRolesOk (ground (arith, stop, same)) all_ok
        | inr e ↦ rw e (
            expel-AllRolesOk session_id 43 room_id banned target_id target_name "banned" _
              (inserted-AllRolesOk s.rooms room_id banned all_ok good))
      ]

  ban_member_in-RolesOk :
      (actor_id : Text) (target : Target) (room banned : RoomRecord) (id name : Text)
      → RolesOk room
      → ban_member_in actor_id target room ≡ allow (id, name, banned)
      → RolesOk banned
  unfolding ban_member_in
  ban_member_in-RolesOk actor_id target room banned id name k h =
      kept-RolesOk room banned (ground (arith, h)) (ground (arith, h)) k

  ban_decided :
      (session_id : Text) (req : Request) (s t : Server) (actor_id room_id : Text)
      (room : RoomRecord) (v : Verdict (Text × Text × RoomRecord))
      → RolesOk room
      → AllRolesOk t.rooms
      → enter trim env (operation trim env 43 "ban:session:") session_id req s
        ≡ (some (actor_id, room_id, room), t)
      → ban_member_in actor_id (resolve_target trim req t) room ≡ v
      → AllRolesOk (ban_member trim env session_id req s).1.rooms
  unfolding ban_member respond_error respond_to_sender
  ban_decided session_id req s t actor_id room_id room (refuse m) k all_ok e d =
      subst AllRolesOk (ground (arith, e, d)) all_ok
  ban_decided session_id req s t actor_id room_id room (allow (id, name, banned)) k all_ok e d =
      rw (e, d)
        (banned-AllRolesOk session_id room_id banned id name t all_ok
          (ban_member_in-RolesOk actor_id _ room banned id name k d))

  kick_decided :
      (session_id : Text) (req : Request) (s t : Server) (actor_id room_id : Text)
      (room : RoomRecord) (v : Verdict (Text × Text))
      → AllRolesOk t.rooms
      → enter trim env (operation trim env 45 "kick:session:") session_id req s
        ≡ (some (actor_id, room_id, room), t)
      → kick_member_in actor_id (resolve_target trim req t) room ≡ v
      → AllRolesOk (kick_member trim env session_id req s).1.rooms
  unfolding kick_member respond_error respond_to_sender
  kick_decided session_id req s t actor_id room_id room (refuse m) all_ok e d =
      subst AllRolesOk (ground (arith, e, d)) all_ok
  kick_decided session_id req s t actor_id room_id room (allow (id, name)) all_ok e d =
      rw (e, d) (expel-AllRolesOk session_id 45 room_id room id name "kicked" t all_ok)

  pub ban_member-AllRolesOk :
      (session_id : Text) (req : Request) (s : Server)
      → AllRolesOk s.rooms
      → AllRolesOk (ban_member trim env session_id req s).1.rooms
  unfolding ban_member
  ban_member-AllRolesOk session_id req s all_ok =
      let o = operation trim env 43 "ban:session:" in
      let t = (enter trim env o session_id req s).1 in
      let entered = enter_lem trim env o session_id req s in
      elim (Option-cases (enter trim env o session_id req s).0) [
        | inl e ↦ subst AllRolesOk (ground (arith, e, entered)) all_ok
        | inr ((actor_id, room_id, room), e) ↦
            ban_decided session_id req s t actor_id room_id room _
              (all_ok room_id room (entered.2 actor_id room_id room e))
              (subst AllRolesOk (sym entered.0) all_ok) (ground (arith, e)) refl
      ]

  pub kick_member-AllRolesOk :
      (session_id : Text) (req : Request) (s : Server)
      → AllRolesOk s.rooms
      → AllRolesOk (kick_member trim env session_id req s).1.rooms
  unfolding kick_member
  kick_member-AllRolesOk session_id req s all_ok =
      let o = operation trim env 45 "kick:session:" in
      let t = (enter trim env o session_id req s).1 in
      let entered = enter_lem trim env o session_id req s in
      elim (Option-cases (enter trim env o session_id req s).0) [
        | inl e ↦ subst AllRolesOk (ground (arith, e, entered)) all_ok
        | inr ((actor_id, room_id, room), e) ↦
            kick_decided session_id req s t actor_id room_id room _
              (subst AllRolesOk (sym entered.0) all_ok) (ground (arith, e)) refl
      ]
