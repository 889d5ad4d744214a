-- ===== src/Room/Handlers/Expel.antt =====
-- What a ban or a kick does to the sessions of its target.
use lqxp.Common.{
  ◌≡◌, refl, ap, inl, inr, false, some, List, [], ◌∷◌, arith, if◌then◌else◌, Bool-cases, ◌==◌,
  filter, contains, set_remove, Assoc, lookup, Text, text_Eq,
}
use Prim.Native.String.{String}
use lqxp.Room.Server.{Server, PlayerSession}
use lqxp.Room.Handlers.{leave_room, remove_user_from_room}

contains-set_remove :
    (room_id : Text) (rooms : List Text) → contains (set_remove room_id rooms) room_id ≡ false
unfolding contains set_remove filter
contains-set_remove room_id [] = refl
contains-set_remove room_id (room ∷ rooms) = ground (arith, contains-set_remove room_id rooms)

-- The session of the user without the room, and any other session as it is.
abbrev pub expelled : Text → Text → PlayerSession → PlayerSession
expelled room_id user_id player =
    if player.user_id == user_id
    then record player { rooms = set_remove room_id player.rooms }
    else player

lookup-leave_room :
    (room_id user_id session_id : Text) (players : Assoc Text PlayerSession)
    (player : PlayerSession)
    → lookup session_id players ≡ some player
    → lookup session_id (leave_room room_id user_id players)
      ≡ some (expelled room_id user_id player)
unfolding lookup leave_room
lookup-leave_room room_id user_id session_id [] player h = cc
lookup-leave_room room_id user_id session_id ((id, front) ∷ players) player h =
    elim (Bool-cases (id == session_id)) [
      | inl b ↦
          let same : front ≡ player = ground (arith, b, h) in
          rw b (ap (λ p. some (expelled room_id user_id p)) same)
      | inr b ↦
          rw b (lookup-leave_room room_id user_id session_id players player (ground (arith, b, h)))
    ]

-- When a user is removed from a room, each session of the user that was there is still there without
-- the room, and each session of another user as it was; the stored rooms are as before.
pub remove_user_from_room_lem :
    (room_id user_id session_id : Text) (reason : String) (s : Server) (player : PlayerSession)
    → lookup session_id s.players ≡ some player
    → (lookup session_id (remove_user_from_room room_id user_id reason s).players
        ≡ some (expelled room_id user_id player))
      × (contains (set_remove room_id player.rooms) room_id ≡ false)
      × ((remove_user_from_room room_id user_id reason s).rooms ≡ s.rooms)
unfolding remove_user_from_room
remove_user_from_room_lem room_id user_id session_id reason s player h = (
  lookup-leave_room room_id user_id session_id s.players player h,
  contains-set_remove room_id player.rooms,
  refl,
)
