-- ===== src/Room/Manage/Owner.antt =====
-- Who deletes a room, and what is left of it: `delete_room_op` of websocket/protocol.rs.
use lqxp.Common.{
  ◌≡◌, refl, sym, ap, ◌∙◌, ◌⊎◌, inl, inr, true, false, ◌||◌, none, some, List, [], ◌∷◌, arith,
  Option-cases, filter, contains, set_remove, Assoc, lookup, remove, Text, text_Eq,
}
use Prim.Native.String.{String}
use lqxp.Common.Json.{Json, str_field}
use lqxp.Room.Record.{RoomRecord, is_community, owned_by}
use lqxp.Room.Decide.{Verdict-cases, allow, refuse}
use lqxp.Room.Acts.{rate_limited, or_respond, verdict, stop_if}
use lqxp.Room.Server.{
  Server, Env, PlayerSession, respond_error, respond_to_sender, room_record, session_identity,
  resolve_room_for_session,
}
use lqxp.Room.Manage.{delete_room_op, is_server_admin, leave_everyone, drop_icon, forget_room}

pub Untouched : Server → Server → Type 0
Untouched s t = (t.rooms ≡ s.rooms) × (t.room_messages ≡ s.room_messages) × (t.players ≡ s.players)

-- What a deletion of `room` by `actor` asked for and leaves.
pub DeletedBy : Text → Text → RoomRecord → Text × Text → Server → Server → Type 0
DeletedBy session_id room_id room actor s t =
    (lookup room_id s.rooms ≡ some room)
    × (is_community room.kind ≡ true)
    × (session_identity session_id s ≡ some actor)
    × ((owned_by room.owner_id actor.0 || is_server_admin (lookup session_id s.players)) ≡ true)
    × (t.rooms ≡ remove room_id s.rooms)
    × (t.room_messages ≡ remove room_id s.room_messages)
    × (t.players ≡ leave_everyone room_id s.players)

pub Deleted : Text → Server → Server → Type 0
Deleted session_id s t =
    (room_id : Text) × (room : RoomRecord) × (actor : Text × Text) × DeletedBy session_id room_id
      room actor s t
    × ((id : Text) (player : PlayerSession)
        → lookup id t.players ≡ some player
        → contains player.rooms room_id ≡ false)

set_remove-contains :
    (room_id : Text) (rooms : List Text) → contains (set_remove room_id rooms) room_id ≡ false
unfolding set_remove contains filter
set_remove-contains room_id [] = refl
set_remove-contains room_id (r ∷ rooms) =
    let rest = set_remove-contains room_id rooms in ground arith

leave_everyone-contains :
    (room_id id : Text) (players : Assoc Text PlayerSession) (player : PlayerSession)
    → lookup id (leave_everyone room_id players) ≡ some player
    → contains player.rooms room_id ≡ false
unfolding leave_everyone lookup
leave_everyone-contains room_id id [] player h = ground arith
leave_everyone-contains room_id id ((other, p) ∷ players) player h =
    let rest = leave_everyone-contains room_id id players player in
    let gone = set_remove-contains room_id p.rooms in ground arith

module _ (trim : Text → Text) (env : Env) (session_id : Text) (d : Json) (s : Server) where
  found :
      (room_id : Text) (room : RoomRecord) (actor : Text × Text)
      → session_identity session_id s ≡ some actor
      → resolve_room_for_session trim session_id (str_field d "gameId") s ≡ allow room_id
      → room_record env.read_ok room_id s ≡ some room
      → Untouched s (delete_room_op trim env session_id d s).1
        ⊎ DeletedBy session_id room_id room actor s (delete_room_op trim env session_id d s).1
  unfolding delete_room_op Untouched DeletedBy rate_limited or_respond verdict stop_if respond_error
      respond_to_sender session_identity resolve_room_for_session drop_icon forget_room
  found room_id room actor h k e = ground arith

  unnamed :
      session_identity session_id s ≡ none → Untouched s (delete_room_op trim env session_id d s).1
  unfolding delete_room_op Untouched rate_limited or_respond stop_if respond_error respond_to_sender
      session_identity
  unnamed h = ground arith

  unresolved :
      (e : String)
      → resolve_room_for_session trim session_id (str_field d "gameId") s ≡ refuse e
      → Untouched s (delete_room_op trim env session_id d s).1
  unfolding delete_room_op Untouched rate_limited or_respond verdict stop_if respond_error
      respond_to_sender session_identity resolve_room_for_session
  unresolved e h = ground arith

  unknown :
      (room_id : Text)
      → resolve_room_for_session trim session_id (str_field d "gameId") s ≡ allow room_id
      → room_record env.read_ok room_id s ≡ none
      → Untouched s (delete_room_op trim env session_id d s).1
  unfolding delete_room_op Untouched rate_limited or_respond verdict stop_if respond_error
      respond_to_sender session_identity resolve_room_for_session
  unknown room_id h k = ground arith

-- A deletion leaves the rooms, the messages and the sessions as they are, or a community room's
-- owner or a server administrator asked for it; then exactly that room's record and messages are
-- gone, and no session is in the room.
pub delete_room_op_lem :
    (trim : Text → Text) (env : Env) (session_id : Text) (d : Json) (s : Server)
    → Untouched s (delete_room_op trim env session_id d s).1
      ⊎ Deleted session_id s (delete_room_op trim env session_id d s).1
unfolding Deleted DeletedBy
delete_room_op_lem trim env session_id d s = elim (Option-cases (session_identity session_id s)) [
  | inl h ↦ inl (unnamed trim env session_id d s h)
  | inr (actor, h) ↦
      elim (Verdict-cases (resolve_room_for_session trim session_id (str_field d "gameId") s)) [
        | inl (e, k) ↦ inl (unresolved trim env session_id d s e k)
        | inr (room_id, k) ↦ elim (Option-cases (room_record env.read_ok room_id s)) [
          | inl e ↦ inl (unknown trim env session_id d s room_id k e)
          | inr (room, e) ↦ elim (found trim env session_id d s room_id room actor h k e) [
            | inl u ↦ inl u
            | inr t ↦ inr (
              room_id,
              room,
              actor,
              t,
              λ id player f.
                  leave_everyone-contains room_id id s.players player
                    (sym (ap (lookup id) t.6) ∙ f),
            )
          ]
        ]
      ]
]
