-- ===== src/Chat/Calls.antt =====
-- The operations that reach the stored messages, in any order: what a server goes through.
use lqxp.Common.{ℕ, Bool, Option, List, Assoc, Text, text_Eq}
use lqxp.Common.Json.{Json}
use lqxp.Chat.Record.{LinkPreview}
use lqxp.Chat.Messages.{Libraries}
use lqxp.Chat.Preview.{preview_for_new, preview_for_edit, preview_for_request, request_link_preview}
use lqxp.Chat.Send.{send_chat_message}
use lqxp.Chat.Amend.{toggle_message_reaction, delete_message}
use lqxp.Chat.Edit.{edit_message, delete_user_messages_in_room_and_broadcast}
use lqxp.Chat.Poll.{vote_poll}
use lqxp.Chat.History.{send_room_history, relay_room_signal}
use lqxp.Room.Server.{Server, Env}
use lqxp.Account.Files.{Disk}

-- One request with what the environment answers, or a preview that arrives.
pub data ChatCall : Type 0 where
  send : Disk → Env → Text → Text → Json → ChatCall
  edit : Env → Text → Json → ChatCall
  delete : Env → Bool → Bool → Text → Json → ChatCall
  react : Env → Text → Json → ChatCall
  forget_user : Text → Text → ℕ → ChatCall
  vote : Env → Text → Json → ChatCall
  history : (List Text → Option (Assoc Text Json)) → Env → Text → Json → ChatCall
  signal : Env → Text → Json → ChatCall
  ask_preview : Env → Text → Json → ChatCall
  preview_new : Text → Text → LinkPreview → ChatCall
  preview_edit : Text → Text → ℕ → LinkPreview → ChatCall
  preview_asked : Text → Text → Option ℕ → LinkPreview → ChatCall

module _ (libs : Libraries) (poll_voter_hash : Text → Text → Text) where
  unfoldable pub serve : ChatCall → Server → Server
  serve (send disk env message_id session_id d) s =
      (send_chat_message libs disk env message_id session_id d s).1
  serve (edit env session_id d) s = (edit_message libs env session_id d s).1
  serve (delete env in_profile in_icon session_id d) s =
      (delete_message libs.unicode env in_profile in_icon session_id d s).1
  serve (react env session_id d) s = (toggle_message_reaction libs.unicode env session_id d s).1
  serve (forget_user room_id username now) s =
      (delete_user_messages_in_room_and_broadcast room_id username now s).1
  serve (vote env session_id d) s =
      (vote_poll libs.unicode.trim poll_voter_hash env session_id d s).1
  serve (history profiles env session_id d) s =
      (send_room_history libs poll_voter_hash profiles env session_id d s).1
  serve (signal env session_id d) s = (relay_room_signal libs env session_id d s).1
  serve (ask_preview env session_id d) s = (request_link_preview libs.unicode env session_id d s).1
  serve (preview_new room_id message_id preview) s = preview_for_new room_id message_id preview s
  serve (preview_edit room_id message_id edited_at preview) s =
      preview_for_edit room_id message_id edited_at preview s
  serve (preview_asked room_id message_id edited_at preview) s =
      preview_for_request room_id message_id edited_at preview s

  -- The states that a sequence of calls leads to.
  pub data ChatReaches (start : Server) : Server → Type 0 where
    before : ChatReaches start start
    served : (s : Server) (call : ChatCall) → ChatReaches start s → ChatReaches start (serve call s)
