-- ===== src/Account/Files.antt =====
-- Uploaded files: `sanitize_filename` of core/security.rs, `file_extension`, `store_uploaded_bytes`
-- and `public_file_url` of services/user.rs, and `upload_is_live` of services/messaging.rs. The
-- upload directory is a map from the names of its files to their bytes.
pub mod Safety
use lqxp.Common.{
  ℕ, ◌+◌, ◌-◌, ◌*◌, ◌/◌, ◌^◌, ◌<◌, Bool, false, ◌&&◌, ◌||◌, not, Option, none, some, List, [], ◌∷◌,
  ◌++◌, map, ltb, nat_beq, if◌then◌else◌, ◌==◌, length, is_empty, filter, any, Assoc, values,
  insert, Text, text, split, ApiError, forbidden, internal, Exec, pure, raise, text_Eq,
}
use Prim.Native.Nat.{min}
use lqxp.Common.Chars.{chars, concat, take_chars, strip_prefix}
use lqxp.Chat.Record.{ChatMessageRecord, Attachment}
use lqxp.Room.Record.{StoredFile}
use lqxp.Account.Names.{Unicode}
use lqxp.Account.Images.{strip_image_metadata}

unfoldable pub trim_start_matches : ℕ → Text → Text
trim_start_matches c [] = []
trim_start_matches c (b ∷ s) = if nat_beq b c then trim_start_matches c s else b ∷ s

unfoldable pub trim_end_matches : ℕ → Text → Text
trim_end_matches c [] = []
trim_end_matches c (b ∷ s) =
    let rest = trim_end_matches c s in if nat_beq b c && is_empty rest then [] else b ∷ rest

unfoldable pub trim_matches : ℕ → Text → Text
unfolding trim_start_matches trim_end_matches
trim_matches c s = trim_end_matches c (trim_start_matches c s)

unfoldable pub is_forbidden : ℕ → Bool
unfolding text
is_forbidden b = any (λ c. nat_beq c b) (text "/\\:*?\"<>|")

-- `rsplit('.').next()`
last_part : List Text → Text
last_part [] = []
last_part (p ∷ []) = p
last_part (p ∷ q ∷ ps) = last_part (q ∷ ps)

unfoldable pub last_segment : Text → Text
unfolding last_part
last_segment filename = last_part (split b'.' filename)

module _ (u : Unicode) where
  -- A character beyond ASCII has none of the forbidden bytes.
  unfoldable pub sanitized_char : Text → Text
  unfolding is_forbidden
  sanitized_char ch = if u.is_control ch || any is_forbidden ch then b'_' ∷ [] else ch

  unfoldable pub sanitize_filename : Text → Text → ℕ → Text
  unfolding sanitized_char trim_matches
  sanitize_filename value fallback max_len =
      let mapped = concat (map sanitized_char (chars (u.trim value))) in
      let sanitized = u.trim (trim_matches b'.' mapped) in
      take_chars max_len (if is_empty sanitized then fallback else sanitized)

-- `.filter(|segment| *segment != filename)`
unfoldable pub extension_or : Text → Text → Text
unfolding last_segment
extension_or filename default =
    if last_segment filename == filename then default else last_segment filename

unfoldable pub file_extension : Text → Text → Text
unfolding extension_or text
file_extension file_name mime_type = extension_or file_name (
    if mime_type == text "image/png"
    then text "png"
    else if mime_type == text "image/gif"
    then text "gif"
    else if mime_type == text "image/jpeg"
    then text "jpg"
    else text "bin")

abbrev pub max_upload_storage : ℕ
max_upload_storage = 10 * 1024 * 1024 * 1024

-- The loop over the directory's entries, with the total so far.
unfoldable pub storage_full : ℕ → Assoc Text Text → Bool
storage_full total [] = false
storage_full total ((name, bytes) ∷ entries) =
    let new_total = min (total + length bytes) (2 ^ 64 - 1) in
    ltb max_upload_storage new_total || storage_full new_total entries

starts_with_slash : Text → Bool
starts_with_slash [] = false
starts_with_slash (c ∷ s) = nat_beq c b'/'

unfoldable pub public_file_url : Unicode → Text → Text → Text
unfolding trim_matches trim_end_matches starts_with_slash text
public_file_url u upload_public_base file_id =
    let trimmed = u.trim upload_public_base in
    let base = if is_empty trimmed then text "/uploads" else trimmed in
    (if starts_with_slash base then trim_end_matches b'/' base else b'/' ∷ trim_matches b'/' base)
    ++ b'/' ∷ file_id

-- `uuid` is the fresh identifier.
unfoldable pub stored_file_id : Unicode → Text → Text → Text
unfolding trim_start_matches
stored_file_id u uuid extension =
    if is_empty (u.trim extension)
    then uuid
    else uuid ++ b'.' ∷ trim_start_matches b'.' (u.trim extension)

-- What the environment decides: whether the directory can be read, whether the file can be
-- written, the fresh identifier, and the configured base of the file addresses.
pub record Disk : Type 0 where
  pub listed : Bool
  pub write_ok : Bool
  pub uuid : Text
  pub upload_public_base : Text

abbrev storage_error : ApiError
storage_error = record { status_code = 507; message = "Upload storage full." }

unfoldable pub store_uploaded_bytes :
    Unicode → Disk → Text → Text → Text → Exec (Assoc Text Text) StoredFile
unfolding storage_full stored_file_id public_file_url strip_image_metadata
store_uploaded_bytes u disk extension bytes mime_type uploads =
    let clean_bytes = strip_image_metadata bytes mime_type in
    let file_id = stored_file_id u disk.uuid extension in
    if disk.listed && storage_full 0 uploads
    then raise storage_error uploads
    else if disk.write_ok
    then pure
        (record {
          id = file_id;
          url = public_file_url u disk.upload_public_base file_id;
          size = length clean_bytes;
          mime_type = mime_type;
        })
        (insert file_id clean_bytes uploads)
    else raise internal uploads

names_file : Text → Option Attachment → Bool
names_file file_id none = false
names_file file_id (some att) = att.id == file_id

unfoldable pub shows_file : Text → ChatMessageRecord → Bool
unfolding names_file
shows_file file_id message = not message.deleted && names_file file_id message.attachment

-- `upload_is_live` for a name with no directory in it. The last two arguments are what the queries on
-- profiles and on room icons answer, where a failed query reads as no.
unfoldable pub upload_is_live : Text → Assoc Text (List ChatMessageRecord) → Bool → Bool → Bool
unfolding shows_file
upload_is_live file_id rooms in_profile in_icon =
    any (λ messages. any (shows_file file_id) messages) (values rooms) || (in_profile || in_icon)
