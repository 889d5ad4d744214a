-- ===== src/Room/Icon.antt =====
-- `store_room_icon_from_payload` of websocket/protocol.rs.
use lqxp.Common.{
  ℕ, ◌+◌, ◌*◌, ◌/◌, Option, none, some, [], ltb, length, Assoc, unwrap_or, remove, Text, text,
  ApiResult, ok, err, panicked, text_Eq,
}
use lqxp.Common.Json.{Json, null, object, get_field, str_field, trimmed_field, nonempty}
use lqxp.Chat.Encrypted.{required, unless, ◌>>=◌, ◌>>◌}
use lqxp.Chat.Messages.{Libraries}
use lqxp.Chat.Attachment.{max_filename_len}
use lqxp.Room.Record.{StoredFile, RoomRecord}
use lqxp.Room.Decide.{Verdict, allow, refuse}
use lqxp.Account.Files.{Disk, sanitize_filename, file_extension, store_uploaded_bytes}
use lqxp.Account.Images.Detect.{detect_profile_image}

abbrev pub max_room_icon_upload_bytes : ℕ
max_room_icon_upload_bytes = 5 * 1024 * 1024

-- `div_ceil(3) * 4 + 4`
abbrev pub max_room_icon_upload_b64_len : ℕ
max_room_icon_upload_b64_len = (max_room_icon_upload_bytes + 2) / 3 * 4 + 4

-- The decoded bytes of an icon, its type and its extension.
pub record IconUpload : Type 0 where
  pub decoded : Text
  pub mime_type : Text
  pub extension : Text

-- The file of the room's previous icon is removed first.
without_previous : Option RoomRecord → Assoc Text Text → Assoc Text Text
unfolding remove
without_previous none uploads = uploads
without_previous (some room) uploads = elim room.icon [
  | none ↦ uploads
  | some icon ↦ remove icon.id uploads
]

stored_icon : ApiResult StoredFile × Assoc Text Text → Verdict (Option StoredFile) × Assoc Text Text
stored_icon (ok stored, uploads) = (allow (some stored), uploads)
stored_icon (err e, uploads) = (refuse "Failed to save icon", uploads)
stored_icon (panicked, uploads) = (refuse "Failed to save icon", uploads)

module _ (libs : Libraries) (disk : Disk) where
  read_icon : Json → Verdict IconUpload
  unfolding text nonempty trimmed_field str_field
  read_icon obj = do
    data_b64 ←
        required (nonempty (trimmed_field libs.unicode.trim obj "dataB64")) "Missing file data"
    unless (ltb max_room_icon_upload_b64_len (length data_b64)) "Room icon too large (5MB max)"
    decoded ← required (libs.b64_decode data_b64) "Invalid file base64"
    unless (ltb max_room_icon_upload_bytes (length decoded)) "Room icon too large (5MB max)"
    detected ←
        detect_profile_image decoded (unwrap_or (trimmed_field libs.unicode.trim obj "mimeType") [])
    allow record {
      decoded = decoded;
      mime_type = detected.mime_type;
      extension =
          file_extension
            (sanitize_filename libs.unicode
              (unwrap_or (str_field obj "filename") (text "room-icon")) (text "room-icon")
              max_filename_len)
            detected.mime_type;
    }

  store_icon :
      Verdict IconUpload
      → Option RoomRecord
      → Assoc Text Text
      → Verdict (Option StoredFile) × Assoc Text Text
  unfolding without_previous stored_icon
  store_icon (refuse e) room uploads = (refuse e, uploads)
  store_icon (allow icon) room uploads = stored_icon (
      store_uploaded_bytes libs.unicode disk icon.extension icon.decoded icon.mime_type
        (without_previous room uploads))

  icon_of :
      Option Json
      → Option RoomRecord
      → Assoc Text Text
      → Verdict (Option StoredFile) × Assoc Text Text
  unfolding read_icon store_icon
  icon_of none room uploads = (allow none, uploads)
  icon_of (some null) room uploads = (allow none, uploads)
  icon_of (some (object fields)) room uploads = store_icon (read_icon (object fields)) room uploads
  icon_of (some _) room uploads = (refuse "Invalid file payload", uploads)

  -- On the record of the room as it is stored.
  unfoldable pub store_room_icon_from_payload :
      Json → Option RoomRecord → Assoc Text Text → Verdict (Option StoredFile) × Assoc Text Text
  unfolding icon_of
  store_room_icon_from_payload d room uploads = icon_of (get_field d "file") room uploads
