-- ===== src/Chat/Send/Kept.antt =====
-- The stored messages under a message that is sent.
use lqxp.Common.{
  ℕ, ◌≡◌, refl, inl, inr, true, Option, none, some, Option-cases, lookup, Text, text_Eq,
}
use lqxp.Common.Json.{Json}
use lqxp.Chat.Record.{ChatMessageRecord, EncryptedPayload, Attachment}
use lqxp.Chat.Messages.{Libraries}
use lqxp.Chat.Send.{
  send_chat_message, attach, take_turn, take_turn_as, refusal, new_message, deliver,
}
use lqxp.Chat.Attachment.{parse_attachment}
use lqxp.Common.Json.{get_field}
use lqxp.Chat.Keeps.{
  message_ok, Keeps, keeping, update-Keeps, respond_to_sender-ChatOk, respond_error-Keeps,
  verdict-Keeps,
}
use lqxp.Chat.Keeps.Rooms.{store_room_message-ChatOk}
use lqxp.Room.Server.{Env, PlayerSession}
use lqxp.Account.Files.{Disk}

take_turn_as-Keeps :
    (o : Option PlayerSession) (session_id room_id : Text) (now : ℕ)
    → Keeps (take_turn_as o session_id room_id now)
unfolding take_turn_as
take_turn_as-Keeps none session_id room_id now = respond_error-Keeps session_id 7 _
take_turn_as-Keeps (some player) session_id room_id now = record {
  kept = λ s h. elim (Option-cases (refusal player room_id now)) [
    | inl c ↦ rw (take_turn_as, c) h
    | inr (payload, c) ↦ rw (take_turn_as, c) (respond_to_sender-ChatOk session_id 7 payload s h)
  ];
}

take_turn-Keeps : (session_id room_id : Text) (now : ℕ) → Keeps (take_turn session_id room_id now)
unfolding take_turn
take_turn-Keeps session_id room_id now = record {
  kept = λ s h. (take_turn_as-Keeps (lookup session_id s.players) session_id room_id now).kept s h;
}

module _ (libs : Libraries) (disk : Disk) (env : Env) where
  attach-Keeps : (session_id : Text) (d : Json) → Keeps (attach libs disk env session_id d)
  unfolding attach
  attach-Keeps session_id d = record {
    kept = λ s h.
        let parsed = parse_attachment libs disk (get_field d "attachment") s.uploads in
        (verdict-Keeps session_id 7 parsed.0).kept (record s { uploads = parsed.1 }) h;
  }

  -- Whatever is parsed, an encrypted message has neither plain text nor a file.
  new_message_ok :
      (message_id room_id : Text) (player : PlayerSession) (d : Json)
      (attachment : Option Attachment) (encrypted : Option EncryptedPayload)
      → message_ok (new_message libs disk env message_id room_id player d attachment encrypted)
        ≡ true
  unfolding new_message message_ok
  new_message_ok message_id room_id player d attachment none = refl
  new_message_ok message_id room_id player d attachment (some payload) = refl

  deliver-Keeps :
      (session_id room_id : Text) (m : ChatMessageRecord) (d : Json)
      → message_ok m ≡ true
      → Keeps (deliver libs disk env session_id room_id m d)
  unfolding deliver
  deliver-Keeps session_id room_id m d k =
      search (keeping, update-Keeps, store_room_message-ChatOk) depth 30

  pub send-Keeps :
      (message_id session_id : Text) (d : Json)
      → Keeps (send_chat_message libs disk env message_id session_id d)
  unfolding send_chat_message
  send-Keeps message_id session_id d =
      search (keeping, attach-Keeps, take_turn-Keeps, deliver-Keeps, new_message_ok) depth 40
