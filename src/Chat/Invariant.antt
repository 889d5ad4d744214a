-- ===== src/Chat/Invariant.antt =====
-- The stored messages under the operations, in any order.
use lqxp.Common.{Text, text_Eq}
use lqxp.Chat.Messages.{Libraries}
use lqxp.Chat.Calls.{
  ChatCall, send, edit, delete, react, forget_user, vote, history, signal, ask_preview, preview_new,
  preview_edit, preview_asked, serve, ChatReaches, before, served,
}
use lqxp.Chat.Keeps.{ChatOk}
use lqxp.Chat.Send.Kept.{send-Keeps}
use lqxp.Chat.Edit.Kept.{edit-Keeps, forget_user-ChatOk}
use lqxp.Chat.Amend.Kept.{react-Keeps, delete-Keeps}
use lqxp.Chat.Poll.Kept.{vote-Keeps}
use lqxp.Chat.History.Kept.{history-Keeps, signal-Keeps}
use lqxp.Chat.Preview.Kept.{
  ask-Keeps, preview_for_new-ChatOk, preview_for_edit-ChatOk, preview_for_request-ChatOk,
}
use lqxp.Room.Server.{Server}

module _ (libs : Libraries) (h : Text → Text → Text) where
  pub serve-ChatOk : (call : ChatCall) (s : Server) → ChatOk s → ChatOk (serve libs h call s)
  unfolding serve
  serve-ChatOk (send disk env id session_id d) s k =
      (send-Keeps libs disk env id session_id d).kept s k
  serve-ChatOk (edit env session_id d) s k = (edit-Keeps libs env session_id d).kept s k
  serve-ChatOk (delete env p i session_id d) s k =
      (delete-Keeps libs.unicode env p i session_id d).kept s k
  serve-ChatOk (react env session_id d) s k = (react-Keeps libs.unicode env session_id d).kept s k
  serve-ChatOk (forget_user room_id name now) s k = forget_user-ChatOk room_id name now s k
  serve-ChatOk (vote env session_id d) s k =
      (vote-Keeps libs.unicode.trim h env session_id d).kept s k
  serve-ChatOk (history p env session_id d) s k = (history-Keeps libs h p env session_id d).kept s k
  serve-ChatOk (signal env session_id d) s k = (signal-Keeps libs env session_id d).kept s k
  serve-ChatOk (ask_preview env session_id d) s k =
      (ask-Keeps libs.unicode env session_id d).kept s k
  serve-ChatOk (preview_new room_id id p) s k = preview_for_new-ChatOk room_id id p s k
  serve-ChatOk (preview_edit room_id id t p) s k = preview_for_edit-ChatOk room_id id t p s k
  serve-ChatOk (preview_asked room_id id t p) s k = preview_for_request-ChatOk room_id id t p s k

  -- Whatever the messages, edits, deletions, reactions, votes and previews, and in any order: if
  -- no room holds more than 150 messages, a deleted message keeps no text, file, ciphertext or
  -- preview, and an encrypted one has no plain text and no file, then so it stays.
  pub reachable_chat : {s t : Server} → ChatReaches libs h s t → ChatOk s → ChatOk t
  reachable_chat before k = k
  reachable_chat (served t call r) k = serve-ChatOk call t (reachable_chat r k)
