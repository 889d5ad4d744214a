-- ===== src/Room/Handlers/Calls.antt =====
-- Sequences of room operations, from any session and with any outcome of the queries.
use lqxp.Common.{ℕ, ◌≡◌, ◌⊎◌, inl, inr, Bool, Option, none, arith, Assoc, Text, text_Eq}
use lqxp.Room.Record.{RoomRecord, ModeratorPermissions}
use lqxp.Room.Record.Roles.{RolesOk}
use lqxp.Room.Decide.{
  Target, allow, timeout_member_in, unban_member_in, unmute_member_in, set_chat_lock_in,
  set_moderator_permissions_in, set_calls_enabled_in,
}
use lqxp.Room.Decide.Limits.{set_member_role_in-RolesOk}
use lqxp.Room.Decide.Transfer.{transfer_ownership_in-RolesOk}
use lqxp.Room.Server.{Server, Env, Request, Act, PlayerSession, resolve_target}
use lqxp.Room.Handlers.{
  set_member_role, ban_member, unban_member, kick_member, timeout_member, unmute_member,
  transfer_ownership, set_chat_lock, set_moderator_permissions, set_calls_enabled,
}
use lqxp.Room.Handlers.Effects.Roles.{
  AllRolesOk, kept-RolesOk, change-AllRolesOk, ban_member-AllRolesOk, kick_member-AllRolesOk,
}

-- One operation with its arguments.
pub data Call : Type 0 where
  set_role : Option Text → Call
  ban_ : Call
  unban : Call
  kick_ : Call
  timeout : Option ℕ → Call
  unmute : Call
  transfer : Call
  lock_chat : Option Bool → Call
  permit : Option ModeratorPermissions → Call
  enable_calls : Option Bool → Call

module _ (trim : Text → Text) where
  unfoldable pub perform : Env → Text → Request → Call → Act (Unit {0})
  perform env session_id req (set_role role) = set_member_role trim env session_id req role
  perform env session_id req ban_ = ban_member trim env session_id req
  perform env session_id req unban = unban_member trim env session_id req
  perform env session_id req kick_ = kick_member trim env session_id req
  perform env session_id req (timeout duration) = timeout_member trim env session_id req duration
  perform env session_id req unmute = unmute_member trim env session_id req
  perform env session_id req transfer = transfer_ownership trim env session_id req
  perform env session_id req (lock_chat locked) = set_chat_lock trim env session_id req locked
  perform env session_id req (permit permissions) =
      set_moderator_permissions trim env session_id req permissions
  perform env session_id req (enable_calls enabled) =
      set_calls_enabled trim env session_id req enabled

  -- A step of the server: an operation, or a change of the sessions from elsewhere.
  pub data Step (s : Server) : Server → Type 0 where
    operation_of :
        (env : Env) (session_id : Text) (req : Request) (call : Call)
        → Step s (perform env session_id req call s).1
    sessions_change : (players : Assoc Text PlayerSession) → Step s (record s { players = players })

  pub data Reaches (s : Server) : Server → Type 0 where
    here : Reaches s s
    next : {t u : Server} → Reaches s t → Step t u → Reaches s u

-- The changes of a record that leave the roles and the owner as they are.
timeout-RolesOk :
    (actor_id : Text) (target : Target) (duration : Option ℕ) (now : ℕ) (room room' : RoomRecord)
    → RolesOk room
    → timeout_member_in actor_id target duration now room ≡ allow room'
    → RolesOk room'
unfolding timeout_member_in
timeout-RolesOk actor_id target duration now room room' k h =
    kept-RolesOk room room' (ground (arith, h)) (ground (arith, h)) k

unmute-RolesOk :
    (actor_id : Text) (target : Target) (room room' : RoomRecord)
    → RolesOk room
    → unmute_member_in actor_id target room ≡ allow room'
    → RolesOk room'
unfolding unmute_member_in
unmute-RolesOk actor_id target room room' k h =
    kept-RolesOk room room' (ground (arith, h)) (ground (arith, h)) k

unban-RolesOk :
    (actor_id : Text) (target : Target) (room room' : RoomRecord)
    → RolesOk room
    → unban_member_in actor_id target room ≡ allow room'
    → RolesOk room'
unfolding unban_member_in
unban-RolesOk actor_id target room room' k h =
    kept-RolesOk room room' (ground (arith, h)) (ground (arith, h)) k

settings-RolesOk :
    (actor_id : Text) (locked enabled : Option Bool) (permissions : Option ModeratorPermissions)
    (room room' : RoomRecord)
    → RolesOk room
    → (set_chat_lock_in actor_id locked room ≡ allow room')
      ⊎ (set_calls_enabled_in actor_id enabled room ≡ allow room')
      ⊎ (set_moderator_permissions_in actor_id permissions room ≡ allow room')
    → RolesOk room'
unfolding set_chat_lock_in set_calls_enabled_in set_moderator_permissions_in
settings-RolesOk actor_id locked enabled permissions room room' k (inl h) =
    kept-RolesOk room room' (ground (arith, h)) (ground (arith, h)) k
settings-RolesOk actor_id locked enabled permissions room room' k (inr (inl h)) =
    kept-RolesOk room room' (ground (arith, h)) (ground (arith, h)) k
settings-RolesOk actor_id locked enabled permissions room room' k (inr (inr h)) =
    kept-RolesOk room room' (ground (arith, h)) (ground (arith, h)) k

module _ (trim : Text → Text) where
  perform-AllRolesOk :
      (env : Env) (session_id : Text) (req : Request) (call : Call) (s : Server)
      → AllRolesOk s.rooms
      → AllRolesOk (perform trim env session_id req call s).1.rooms
  unfolding perform set_member_role unban_member timeout_member unmute_member transfer_ownership
      set_chat_lock set_moderator_permissions set_calls_enabled
  perform-AllRolesOk env session_id req (set_role role) s k =
      change-AllRolesOk trim env _ _ session_id req _ s
        (λ actor_id t room room' ok_ h.
          set_member_role_in-RolesOk room room' actor_id _ (resolve_target trim req t) ok_ h)
        k
  perform-AllRolesOk env session_id req ban_ s k = ban_member-AllRolesOk trim env session_id req s k
  perform-AllRolesOk env session_id req kick_ s k =
      kick_member-AllRolesOk trim env session_id req s k
  perform-AllRolesOk env session_id req unban s k =
      change-AllRolesOk trim env _ _ session_id req _ s
        (λ actor_id t. unban-RolesOk actor_id (resolve_target trim req t)) k
  perform-AllRolesOk env session_id req (timeout duration) s k =
      change-AllRolesOk trim env _ _ session_id req _ s
        (λ actor_id t. timeout-RolesOk actor_id (resolve_target trim req t) duration env.now) k
  perform-AllRolesOk env session_id req unmute s k =
      change-AllRolesOk trim env _ _ session_id req _ s
        (λ actor_id t. unmute-RolesOk actor_id (resolve_target trim req t)) k
  perform-AllRolesOk env session_id req transfer s k =
      change-AllRolesOk trim env _ _ session_id req _ s
        (λ actor_id t room room' ok_ h.
          transfer_ownership_in-RolesOk room room' actor_id (resolve_target trim req t) ok_ h)
        k
  perform-AllRolesOk env session_id req (lock_chat locked) s k =
      change-AllRolesOk trim env _ _ session_id req _ s
        (λ actor_id t room room' ok_ h.
          settings-RolesOk actor_id locked none none room room' ok_ (inl h))
        k
  perform-AllRolesOk env session_id req (permit permissions) s k =
      change-AllRolesOk trim env _ _ session_id req _ s
        (λ actor_id t room room' ok_ h.
          settings-RolesOk actor_id none none permissions room room' ok_ (inr (inr h)))
        k
  perform-AllRolesOk env session_id req (enable_calls enabled) s k =
      change-AllRolesOk trim env _ _ session_id req _ s
        (λ actor_id t room room' ok_ h.
          settings-RolesOk actor_id none enabled none room room' ok_ (inr (inl h)))
        k

  Step-AllRolesOk : (s t : Server) → AllRolesOk s.rooms → Step trim s t → AllRolesOk t.rooms
  Step-AllRolesOk s t k (operation_of env session_id req call) =
      perform-AllRolesOk env session_id req call s k
  Step-AllRolesOk s t k (sessions_change players) = k

  -- If every stored room has at most five moderators and three sub-administrators, one entry per user
  -- in the role map, and no administrator entry but the owner's, then so has every stored room after
  -- any sequence of the ten room operations, from any sessions and with any failing queries, mixed
  -- with any changes of the sessions.
  pub reachable_roles : (s t : Server) → AllRolesOk s.rooms → Reaches trim s t → AllRolesOk t.rooms
  reachable_roles s t k here = k
  reachable_roles s u k (next {t} before step) =
      Step-AllRolesOk t u (reachable_roles s t k before) step
