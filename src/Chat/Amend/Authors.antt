-- ===== src/Chat/Amend/Authors.antt =====
-- Who deletes what.
use lqxp.Common.{ℕ, ◌<◌, ◌≡◌, refl, ◌⊎◌, inl, inr, true, false, some, arith}
use lqxp.Chat.Record.{ChatMessageRecord, is_message_author}
use lqxp.Chat.Amend.{moderates, may_delete}
use lqxp.Room.Record.{
  RoomRecord, RoomRole, member, moderator, sub_administrator, administrator, is_community,
  role_in_room,
}
use lqxp.Room.Server.{PlayerSession}

-- The roles from the least to the greatest.
abbrev pub rank : RoomRole → ℕ
rank member = 0
rank moderator = 1
rank sub_administrator = 2
rank administrator = 3

moderates-rank :
    (room : RoomRecord) (actor author : RoomRole)
    → moderates room actor author ≡ true
    → (actor ≡ administrator) ⊎ (rank author < rank actor)
unfolding moderates
moderates-rank room administrator author h = inl refl
moderates-rank room sub_administrator member h = inr (omega arith)
moderates-rank room sub_administrator moderator h = inr (omega arith)
moderates-rank room sub_administrator sub_administrator h = cc
moderates-rank room sub_administrator administrator h = cc
moderates-rank room moderator member h = inr (omega arith)
moderates-rank room moderator moderator h = ground arith
moderates-rank room moderator sub_administrator h = ground arith
moderates-rank room moderator administrator h = ground arith
moderates-rank room member author h = cc

-- In a community room, whoever may delete a message that is not theirs is the administrator or
-- outranks its author, and the deletion is marked as a moderator's.
pub may_delete-rank :
    (room : RoomRecord) (player : PlayerSession) (m : ChatMessageRecord)
    → is_community room.kind ≡ true
    → is_message_author m.user_id m.username player.user_id player.username ≡ false
    → (may_delete (some room) player m).0 ≡ true
    → ((role_in_room room player.user_id ≡ administrator)
        ⊎ (rank (role_in_room room m.user_id) < rank (role_in_room room player.user_id)))
      × ((may_delete (some room) player m).1 ≡ true)
unfolding may_delete
may_delete-rank room player m community_ not_author h =
    let moderates_ : moderates room (role_in_room room player.user_id) (role_in_room room m.user_id)
        ≡ true =
      ground arith in
    (
      moderates-rank room (role_in_room room player.user_id) (role_in_room room m.user_id)
          moderates_,
      ground arith,
    )
