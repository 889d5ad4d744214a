-- ===== src/Chat/Record.antt =====
-- `ChatMessageRecord` of core/models.rs and what it holds, and `PollTally` of core/presence.rs.
use lqxp.Common.{ℕ, Bool, ◌&&◌, not, Option, List, if◌then◌else◌, ◌==◌, is_empty, Text, text_Eq}
use lqxp.Common.Json.{Json}

pub record MessageReaction : Type 0 where
  pub emoji : Text
  pub users : List Text
  pub count : ℕ

pub record Attachment : Type 0 where
  pub id : Text
  pub url : Text
  pub filename : Text
  pub mime_type : Text
  pub size : ℕ

pub record EncryptedPayload : Type 0 where
  pub v : ℕ
  pub alg : Text
  pub iv : Text
  pub salt : Text
  pub n : Option ℕ
  pub sender_device_id : Text
  pub sender_signing_key : Option Json
  pub signature : Text
  pub ciphertext : Text
  pub room_id : Option Text

pub record LinkPreview : Type 0 where
  pub url : Text
  pub title : Text
  pub description : Text
  pub image : Text
  pub site_name : Text

-- A profile is passed on as it is.
pub record ChatMessageRecord : Type 0 where
  pub message_id : Text
  pub room_id : Text
  pub user : Text
  pub username : Text
  pub user_id : Text
  pub body : Text
  pub timestamp : ℕ
  pub profile : Json
  pub edited_at : Option ℕ
  pub system : Bool
  pub reactions : List MessageReaction
  pub reply_to_message_id : Option Text
  pub attachment : Option Attachment
  pub encrypted : Option EncryptedPayload
  pub preview : Option LinkPreview
  pub deleted : Bool
  pub deleted_by : Text
  pub deleted_by_moderator : Bool

-- The hash set of voters as a list with no key twice.
pub record PollTally : Type 0 where
  pub voters : List Text
  pub counts : List ℕ

-- `is_message_author`
unfoldable pub is_message_author : Text → Text → Text → Text → Bool
is_message_author message_user_id message_username actor_user_id actor_username =
    if is_empty message_user_id
    then not (is_empty message_username) && message_username == actor_username
    else not (is_empty actor_user_id) && message_user_id == actor_user_id
