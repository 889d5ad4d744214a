-- ===== src/Room/Decide/Unmute.antt =====
-- A request to be unmuted, `unmute_member` of websocket/protocol.rs, from the target of a timeout.
use lqxp.Common.{
  ℕ, ◌+◌, ◌*◌, ◌<◌, ◌≡◌, true, false, Option, arith, eq_law, remove, insert, contains_key,
  lookup-remove, Text, text_Eq,
}
use lqxp.Room.Record.{RoomRecord, sub_administrator, role_in_room, can_moderate, can_speak}
use lqxp.Room.Decide.{allow, timeout_member_in, unmute_member_in, timeout_seconds}
use lqxp.Room.Decide.Authority.{timeout_silences}

-- A sub-administrator who asks to be unmuted is not refused.
sub_administrator_unmutes_self :
    (room : RoomRecord) (actor_id name : Text)
    → role_in_room room actor_id ≡ sub_administrator
    → unmute_member_in actor_id (allow (actor_id, name)) room
      ≡ allow (record room { timeouts = remove actor_id room.timeouts })
unfolding unmute_member_in can_moderate
sub_administrator_unmutes_self room actor_id name h = rw h

-- Once the timeout is taken away, a sub-administrator who is not banned can speak.
freed_speaks :
    (room : RoomRecord) (key : Text) (later : ℕ)
    → role_in_room room key ≡ sub_administrator
    → contains_key key room.banned ≡ false
    → can_speak (record room { timeouts = remove key room.timeouts }) key later ≡ true
unfolding can_speak role_in_room
freed_speaks room key later role free =
    ground (arith, role, free, lookup-remove key key room.timeouts, eq_law key key)

-- The room after a timeout.
timed_room :
    (room timed : RoomRecord) (actor_id key name : Text) (duration : Option ℕ) (now : ℕ)
    → timeout_member_in actor_id (allow (key, name)) duration now room ≡ allow timed
    → timed
      ≡ record room { timeouts = insert key (now + timeout_seconds duration * 1000) room.timeouts }
unfolding timeout_member_in
timed_room room timed actor_id key name duration now h = ground (arith, h)

-- A timeout on a sub-administrator who is not banned silences them until its end, but their own
-- request to be unmuted is granted, and then they can speak.
pub timeout_lifted_by_target :
    (room timed : RoomRecord) (actor_id key name : Text) (duration : Option ℕ) (now later : ℕ)
    → timeout_member_in actor_id (allow (key, name)) duration now room ≡ allow timed
    → role_in_room room key ≡ sub_administrator
    → contains_key key room.banned ≡ false
    → later < now + timeout_seconds duration * 1000
    → (can_speak timed key later ≡ false)
      × ((freed : RoomRecord) × (unmute_member_in key (allow (key, name)) timed ≡ allow freed)
          × (can_speak freed key later ≡ true))
unfolding role_in_room
timeout_lifted_by_target room timed actor_id key name duration now later h role free soon =
    let silent = timeout_silences room timed actor_id key name duration now later h soon in
    let e : timed ≡ record room {
      timeouts = insert key (now + timeout_seconds duration * 1000) room.timeouts;
    } =
      timed_room room timed actor_id key name duration now h in
    let role' : role_in_room timed key ≡ sub_administrator = rw e role in
    let free' : contains_key key timed.banned ≡ false = rw e free in
    (
      silent.3,
      (
        record timed { timeouts = remove key timed.timeouts },
        sub_administrator_unmutes_self timed key name role',
        freed_speaks timed key later role' free',
      ),
    )
