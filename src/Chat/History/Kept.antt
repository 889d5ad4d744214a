-- ===== src/Chat/History/Kept.antt =====
-- The stored messages under a history request and a signal.
use lqxp.Common.{
  inl, inr, ◌||◌, not, Option, none, some, List, Bool-cases, is_empty, contains, Assoc, Text,
  text_Eq,
}
use lqxp.Common.Json.{Json}
use lqxp.Chat.Messages.{Libraries}
use lqxp.Chat.History.{send_room_history, dispatch_room_history, relay_room_signal, in_room}
use lqxp.Chat.Keeps.{Keeps, keeping, update-Keeps, respond_to_sender-ChatOk, respond_error-Keeps}
use lqxp.Room.Server.{Env, PlayerSession}

pub history-Keeps :
    (libs : Libraries) (h : Text → Text → Text) (p : List Text → Option (Assoc Text Json))
    (env : Env) (session_id : Text) (d : Json)
    → Keeps (send_room_history libs h p env session_id d)
unfolding send_room_history dispatch_room_history
history-Keeps libs h p env session_id d =
    search (keeping, update-Keeps, respond_to_sender-ChatOk) depth 30

in_room-Keeps :
    (o : Option PlayerSession) (session_id room_id : Text) → Keeps (in_room o session_id room_id)
unfolding in_room
in_room-Keeps none session_id room_id = respond_error-Keeps session_id 55 _
in_room-Keeps (some player) session_id room_id = record {
  kept = λ s h.
      elim (Bool-cases (is_empty player.username || not (contains player.rooms room_id))) [
        | inl c ↦ rw c ((respond_error-Keeps session_id 55 _).kept s h)
        | inr c ↦ rw c h
      ];
}

pub signal-Keeps :
    (libs : Libraries) (env : Env) (session_id : Text) (d : Json)
    → Keeps (relay_room_signal libs env session_id d)
unfolding relay_room_signal
signal-Keeps libs env session_id d = search (keeping, in_room-Keeps, update-Keeps) depth 30
