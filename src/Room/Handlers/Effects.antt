-- ===== src/Room/Handlers/Effects.antt =====
-- What a whole operation may do to the stored rooms.
pub mod Roles
use lqxp.Common.{
  ℕ, ◌-◌, ◌≡◌, refl, ◌⊎◌, inl, inr, Option, none, some, arith, Bool-cases, Option-cases, lookup,
  insert, Text, ◌>>=◌, ◌>>◌, text_Eq,
}
use Prim.Native.String.{String}
use lqxp.Room.Record.{RoomRecord}
use lqxp.Room.Decide.{Verdict, allow, refuse}
use lqxp.Room.Server.{
  Act, and_then, done, Server, Env, Request, Payload, respond_to_sender, respond_error,
  broadcast_to_room, room_record, set_room_record, session_identity, resolve_room_for_session,
}
use lqxp.Room.Handlers.{
  Operation, enter, persist, announce, change, sync_room_record, synced, remove_user_from_room,
  expel,
}

respond-rooms :
    (session_id : Text) (op : ℕ) (payload : Payload) (s : Server)
    → ((respond_to_sender session_id op payload s).rooms ≡ s.rooms)
      × ((respond_to_sender session_id op payload s).players ≡ s.players)
unfolding respond_to_sender
respond-rooms session_id op payload s = ground arith

module _ (trim : Text → Text) (env : Env) where
  -- `enter` leaves the rooms and the players alone, and hands over a stored community room.
  enter_lem :
      (o : Operation) (session_id : Text) (req : Request) (s : Server)
      → ((enter trim env o session_id req s).1.rooms ≡ s.rooms)
        × ((enter trim env o session_id req s).1.players ≡ s.players)
        × ((actor_id room_id : Text) (room : RoomRecord)
            → (enter trim env o session_id req s).0 ≡ some (actor_id, room_id, room)
            → lookup room_id s.rooms ≡ some room)
  unfolding enter respond_error respond_to_sender
  enter_lem o session_id req s =
      (ground arith, ground arith, λ actor_id room_id room h. ground arith)

  persist_lem :
      (session_id : Text) (op : ℕ) (room_id : Text) (room : RoomRecord) (message : String)
      (s : Server)
      → (((persist trim env session_id op room_id room message s).0 ≡ none)
          × ((persist trim env session_id op room_id room message s).1.rooms ≡ s.rooms)
          × ((persist trim env session_id op room_id room message s).1.players ≡ s.players))
        ⊎ (persist trim env session_id op room_id room message s
            ≡ (some tt, set_room_record room_id room s))
  unfolding persist respond_error respond_to_sender
  persist_lem session_id op room_id room message s = ground arith

  announce_lem :
      (session_id : Text) (op : ℕ) (room_id : Text) (room : RoomRecord) (s : Server)
      → ((announce trim env session_id op room_id room s).1.rooms ≡ s.rooms)
        × ((announce trim env session_id op room_id room s).1.players ≡ s.players)
        × ((announce trim env session_id op room_id room s).0 ≡ some tt)
  unfolding announce respond_to_sender broadcast_to_room
  announce_lem session_id op room_id room s = ground arith

  abbrev Stopped : Option (Unit {0}) × Server → Server → Type 0
  Stopped r s = (r.0 ≡ none) × (r.1.rooms ≡ s.rooms) × (r.1.players ≡ s.players)

  abbrev Wrote : (RoomRecord → Verdict RoomRecord) → Option (Unit {0}) × Server → Server → Type 0
  Wrote decide r s =
      (room_id : Text) × (room : RoomRecord) × (changed : RoomRecord) × (lookup room_id s.rooms
        ≡ some room)
      × (decide room ≡ allow changed)
      × (r.1.rooms ≡ insert room_id changed s.rooms)
      × (r.1.players ≡ s.players)

  change_entered :
      (o : Operation) (failed : String) (session_id : Text) (req : Request)
      (decide : Text → Server → RoomRecord → Verdict RoomRecord) (s : Server)
      (actor_id room_id : Text) (room : RoomRecord) (v : Verdict RoomRecord)
      → (enter trim env o session_id req s).0 ≡ some (actor_id, room_id, room)
      → decide actor_id (enter trim env o session_id req s).1 room ≡ v
      → Stopped (change trim env o failed session_id req decide s) s
        ⊎ Wrote
            (decide actor_id (enter trim env o session_id req s).1)
            (change trim env o failed session_id req decide s)
            s
  unfolding change respond_error respond_to_sender broadcast_to_room set_room_record
  change_entered o failed session_id req decide s actor_id room_id room (refuse m) e d = inl (
    ground (arith, e, d),
    ground (arith, e, d, enter_lem o session_id req s),
    ground (arith, e, d, enter_lem o session_id req s),
  )
  change_entered o failed session_id req decide s actor_id room_id room (allow changed) e d =
      elim (Bool-cases env.write_ok) [
        | inl w ↦ inr (
          room_id,
          room,
          changed,
          (enter_lem o session_id req s).2 actor_id room_id room e,
          d,
          ground (arith, e, d, w, enter_lem o session_id req s),
          ground (arith, e, d, w, enter_lem o session_id req s),
        )
        | inr f ↦ inl (
          ground (arith, e, d, f),
          ground (arith, e, d, f, enter_lem o session_id req s),
          ground (arith, e, d, f, enter_lem o session_id req s),
        )
      ]

  -- An operation that changes a record either stops, with rooms and players as they were, or writes
  -- the record that its decision allowed for a stored room.
  change_cases :
      (o : Operation) (failed : String) (session_id : Text) (req : Request)
      (decide : Text → Server → RoomRecord → Verdict RoomRecord) (s : Server)
      → Stopped (change trim env o failed session_id req decide s) s
        ⊎ ((actor_id : Text) × Wrote
              (decide actor_id (enter trim env o session_id req s).1)
              (change trim env o failed session_id req decide s)
              s)
  unfolding change
  change_cases o failed session_id req decide s =
      elim (Option-cases (enter trim env o session_id req s).0) [
        | inl e ↦ inl (
          ground (arith, e),
          ground (arith, e, enter_lem o session_id req s),
          ground (arith, e, enter_lem o session_id req s),
        )
        | inr ((actor_id, room_id, room), e) ↦
            elim (change_entered o failed session_id req decide s actor_id room_id room _ e refl) [
              | inl stopped ↦ inl stopped
              | inr wrote ↦ inr (actor_id, wrote)
            ]
      ]
