-- ===== src/Chat/Amend/Kept.antt =====
-- The stored messages under a reaction and a deletion.
use lqxp.Common.{
  ◌≡◌, refl, inl, inr, Bool, true, not, Option, none, some, if◌then◌else◌, Bool-cases, Text,
  text_Eq,
}
use lqxp.Common.Json.{Json}
use lqxp.Chat.Record.{ChatMessageRecord, Attachment}
use lqxp.Chat.Amend.{
  toggle_message_reaction, update_message_reactions, delete_message, delete_found, toggled, emptied,
  drop_upload, may_delete,
}
use lqxp.Chat.Keeps.{
  message_ok, ChatOk, Keeps, keeping, broadcast_to_room-ChatOk, if-ChatOk, respond_error-Keeps,
}
use lqxp.Chat.Keeps.Rooms.{change_message_in-ChatOk}
use lqxp.Room.Server.{Server, Env, PlayerSession, room_record}
use lqxp.Account.Names.{Unicode}
use lqxp.Account.Files.{upload_is_live}

react_in-ChatOk :
    (room_id message_id emoji username : Text) (s : Server)
    → ChatOk s
    → ChatOk (update_message_reactions room_id message_id emoji username s).1
unfolding update_message_reactions message_ok
react_in-ChatOk room_id message_id emoji username s h =
    change_message_in-ChatOk room_id message_id (toggled emoji username) s (λ ms m p q k. k) h

react_in-Keeps :
    (room_id message_id emoji username : Text)
    → Keeps (λ (s : Server).
      let (r, t) = update_message_reactions room_id message_id emoji username s in (some r, t))
react_in-Keeps room_id message_id emoji username = record {
  kept = λ s h. react_in-ChatOk room_id message_id emoji username s h;
}

pub react-Keeps :
    (u : Unicode) (env : Env) (session_id : Text) (d : Json)
    → Keeps (toggle_message_reaction u env session_id d)
unfolding toggle_message_reaction
react-Keeps u env session_id d = search (keeping, react_in-Keeps) depth 40

emptied-ok :
    (username : Text) (by_moderator : Bool) (m : ChatMessageRecord)
    → message_ok (emptied username by_moderator m) ≡ true
unfolding emptied message_ok
emptied-ok username by_moderator m = refl

delete_found-Keeps :
    (u : Unicode) (env : Env) (p i : Bool) (session_id : Text) (player : PlayerSession)
    (room_id message_id : Text) (m : ChatMessageRecord)
    → Keeps (delete_found u env p i session_id player room_id message_id m)
unfolding delete_found
delete_found-Keeps u env p i session_id player room_id message_id m = record {
  kept = λ s h.
      let may = may_delete (room_record env.read_ok room_id s) player m in
      if-ChatOk m.deleted _ _ h (
        if-ChatOk (not may.0) _ _ ((respond_error-Keeps session_id 21 _).kept s h) (
          broadcast_to_room-ChatOk room_id 22 _ _ (
            change_message_in-ChatOk room_id message_id (emptied player.username may.1) s
              (λ ms n q r k. emptied-ok player.username may.1 n) h)));
}

drop_upload-ChatOk :
    (a : Option Attachment) (p i : Bool) (s : Server) → ChatOk s → ChatOk (drop_upload a p i s)
unfolding drop_upload
drop_upload-ChatOk none p i s h = h
drop_upload-ChatOk (some att) p i s h =
    elim (Bool-cases (upload_is_live att.id s.room_messages p i)) [
      | inl c ↦ rw (drop_upload, c) h
      | inr c ↦ rw (drop_upload, c) h
    ]

drop-Keeps :
    (m : ChatMessageRecord) (p i : Bool)
    → Keeps (λ s.
      (some tt, (if m.deleted then (λ (s : Server). s) else drop_upload m.attachment p i) s))
drop-Keeps m p i = record {
  kept = λ s h. elim (Bool-cases m.deleted) [
    | inl a ↦ rw a h
    | inr a ↦ rw a (drop_upload-ChatOk m.attachment p i s h)
  ];
}

pub delete-Keeps :
    (u : Unicode) (env : Env) (p i : Bool) (session_id : Text) (d : Json)
    → Keeps (delete_message u env p i session_id d)
unfolding delete_message
delete-Keeps u env p i session_id d = search (keeping, delete_found-Keeps, drop-Keeps) depth 40
