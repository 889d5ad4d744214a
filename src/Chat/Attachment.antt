-- ===== src/Chat/Attachment.antt =====
-- `parse_attachment` of websocket/protocol.rs.
use lqxp.Common.{
  ℕ, ◌+◌, ◌*◌, ◌/◌, Option, none, some, [], ltb, length, is_empty, Assoc, unwrap_or, Text, text,
  ApiResult, ok, err, panicked, text_Eq,
}
use lqxp.Common.Chars.{take_chars}
use lqxp.Common.Json.{Json, null, object, str_field, trimmed_field, nonempty}
use lqxp.Chat.Record.{Attachment}
use lqxp.Chat.Encrypted.{required, unless, ◌>>=◌, ◌>>◌}
use lqxp.Chat.Messages.{Libraries}
use lqxp.Room.Decide.{Verdict, allow, refuse}
use lqxp.Room.Record.{StoredFile}
use lqxp.Account.Files.{Disk, sanitize_filename, extension_or, store_uploaded_bytes}

abbrev pub max_attachment_bytes : ℕ
max_attachment_bytes = 25 * 1024 * 1024

-- `div_ceil(3) * 4 + 4`
abbrev pub max_attachment_b64_len : ℕ
max_attachment_b64_len = (max_attachment_bytes + 2) / 3 * 4 + 4

abbrev pub max_filename_len : ℕ
max_filename_len = 128

abbrev pub max_mimetype_len : ℕ
max_mimetype_len = 96

-- What is to be stored: the bytes, the file's name and its type.
pub record Upload : Type 0 where
  pub decoded : Text
  pub filename : Text
  pub mime_type : Text

stored_attachment :
    Upload → ApiResult StoredFile × Assoc Text Text → Verdict (Option Attachment) × Assoc Text Text
stored_attachment upload (ok stored, uploads) = (
  allow (
      some record {
        id = stored.id;
        url = stored.url;
        filename = upload.filename;
        mime_type = upload.mime_type;
        size = length upload.decoded;
      }),
  uploads,
)
stored_attachment upload (err e, uploads) = (refuse "Failed to store attachment", uploads)
stored_attachment upload (panicked, uploads) = (refuse "Failed to store attachment", uploads)

module _ (libs : Libraries) (disk : Disk) where
  read_upload : Json → Verdict Upload
  unfolding text nonempty trimmed_field str_field take_chars
  read_upload obj = do
    data_b64 ← required (str_field obj "dataB64") "Attachment missing dataB64"
    unless (is_empty data_b64) "Attachment dataB64 is empty"
    unless (ltb max_attachment_b64_len (length data_b64)) "Attachment too large (25MB max)"
    decoded ← required (libs.b64_decode data_b64) "Attachment dataB64 is not valid base64"
    unless (ltb max_attachment_bytes (length decoded)) "Attachment too large (25MB max)"
    allow record {
      decoded = decoded;
      filename =
          sanitize_filename libs.unicode (unwrap_or (str_field obj "filename") (text "file"))
            (text "file") max_filename_len;
      mime_type = take_chars max_mimetype_len (
          unwrap_or (nonempty (trimmed_field libs.unicode.trim obj "mimeType"))
            (text "application/octet-stream"));
    }

  store_upload : Verdict Upload → Assoc Text Text → Verdict (Option Attachment) × Assoc Text Text
  unfolding stored_attachment
  store_upload (refuse e) uploads = (refuse e, uploads)
  store_upload (allow upload) uploads = stored_attachment upload (
      store_uploaded_bytes libs.unicode disk (extension_or upload.filename []) upload.decoded
        upload.mime_type uploads)

  unfoldable pub parse_attachment :
      Option Json → Assoc Text Text → Verdict (Option Attachment) × Assoc Text Text
  unfolding read_upload store_upload
  parse_attachment none uploads = (allow none, uploads)
  parse_attachment (some null) uploads = (allow none, uploads)
  parse_attachment (some (object fields)) uploads =
      store_upload (read_upload (object fields)) uploads
  parse_attachment (some _) uploads = (refuse "Attachment must be an object", uploads)
