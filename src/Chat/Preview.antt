-- ===== src/Chat/Preview.antt =====
-- Link previews in websocket/protocol.rs and `find_first_url` of linkpreview.rs. Fetching a preview
-- is left to the environment: it arrives later, in a step of its own.
pub mod Kept
use lqxp.Common.{
  ℕ, ◌+◌, ◌-◌, ◌/◌, ◌<◌, Bool, true, false, ◌&&◌, ◌||◌, not, Option, none, some, List, [], ◌∷◌,
  ◌++◌, ltb, nat_beq, if◌then◌else◌, is_empty, any, contains, is_some, lookup, Text, text,
  to_ascii_lowercase, text_Eq,
}
use Prim.Native.String.{String}
use lqxp.Common.Chars.{chars, char_count, strip_prefix}
use lqxp.Common.Json.{Json, str_field, trimmed_field}
use lqxp.Chat.Record.{ChatMessageRecord, LinkPreview}
use lqxp.Chat.Messages.{message_in, change_message_in, identified}
use lqxp.Room.Decide.{Verdict, allow, refuse}
use lqxp.Room.Acts.{Operation, rate_limited, or_respond, verdict, stop_if, get, update}
use lqxp.Room.Server.{
  Act, and_then, ◌>>=◌, ◌>>◌, done, Server, PlayerSession, Env, Payload, message_ok,
  message_preview, respond_to_sender, respond_error, broadcast_to_room, validate_room_id,
}
use lqxp.Account.Names.{Unicode}

abbrev pub max_preview_url_len : ℕ
max_preview_url_len = 2048

-- The characters that end an address, besides white space: `<>"'`` and the backslash.
is_url_char : Unicode → Text → Bool
is_url_char u ch =
    not (u.is_whitespace ch)
    && not (any (λ b. any (λ c. nat_beq c b) (b'<' ∷ b'>' ∷ b'"' ∷ 39 ∷ 96 ∷ 92 ∷ [])) ch)

url_run : Unicode → List Text → Text
unfolding is_url_char
url_run u [] = []
url_run u (ch ∷ cs) = let rest = url_run u cs in if is_url_char u ch then ch ++ rest else []

with_run : Text → Text → Option Text
with_run scheme run = if is_empty run then none else some (scheme ++ run)

url_at : Unicode → Text → Option Text
unfolding url_run with_run text
url_at u s = elim (strip_prefix (text "https://") s) [
  | some rest ↦ with_run (text "https://") (url_run u (chars rest))
  | none ↦ elim (strip_prefix (text "http://") s) [
    | some rest ↦ with_run (text "http://") (url_run u (chars rest))
    | none ↦ none
  ]
]

-- The leftmost match.
unfoldable pub find_first_url : Unicode → Text → Option Text
unfolding url_at
find_first_url u [] = none
find_first_url u (c ∷ s) =
    let later = find_first_url u s in elim (url_at u (c ∷ s)) [ some url ↦ some url | none ↦ later ]

same_time : Option ℕ → Option ℕ → Bool
same_time none none = true
same_time (some a) (some b) = nat_beq a b
same_time _ _ = false

abbrev stored_in : Text → Text → Server → Option ChatMessageRecord
stored_in room_id message_id s = elim (lookup room_id s.room_messages) [
  | none ↦ none
  | some messages ↦ message_in message_id messages
]

show_preview : Text → Text → LinkPreview → Server → Server
show_preview room_id message_id preview s =
    broadcast_to_room room_id 23 (message_preview room_id message_id preview) s

patch : Text → Text → LinkPreview → Server → Server
unfolding show_preview
patch room_id message_id preview s =
    show_preview room_id message_id preview
      (change_message_in room_id message_id (λ m. record m { preview = some preview }) s)

-- The end of `send_chat_message`, when the preview arrives: it is sent also when the message is no
-- longer stored.
unfoldable pub preview_for_new : Text → Text → LinkPreview → Server → Server
unfolding patch show_preview
preview_for_new room_id message_id preview s = elim (stored_in room_id message_id s) [
  | none ↦ show_preview room_id message_id preview s
  | some m ↦
      if not m.deleted && not (is_some m.edited_at) then patch room_id message_id preview s else s
]

-- The end of `edit_message`.
unfoldable pub preview_for_edit : Text → Text → ℕ → LinkPreview → Server → Server
unfolding patch same_time
preview_for_edit room_id message_id edited_at preview s = elim (stored_in room_id message_id s) [
  | none ↦ s
  | some m ↦
      if m.deleted || (is_some m.preview || not (same_time m.edited_at (some edited_at)))
      then s
      else patch room_id message_id preview s
]

-- The end of `request_link_preview`.
unfoldable pub preview_for_request : Text → Text → Option ℕ → LinkPreview → Server → Server
unfolding patch same_time
preview_for_request room_id message_id requested_edited_at preview s =
    elim (stored_in room_id message_id s) [
      | none ↦ s
      | some m ↦
          if m.deleted
            || (not (is_some m.encrypted)
                || (is_some m.preview || not (same_time m.edited_at requested_edited_at)))
          then s
          else patch room_id message_id preview s
    ]

abbrev starts_with : String → Text → Bool
starts_with p s = is_some (strip_prefix (text p) s)

sanitize_preview_url : Unicode → Text → Option Text
unfolding strip_prefix text
sanitize_preview_url u value =
    let trimmed = u.trim value in
    let lower = to_ascii_lowercase trimmed in
    if is_empty trimmed || ltb max_preview_url_len (char_count trimmed)
    then none
    else if not (starts_with "http://" lower) && not (starts_with "https://" lower)
    then none
    else some trimmed

sanitized_url : Unicode → Option Text → Verdict Text
unfolding sanitize_preview_url
sanitized_url u none = refuse "Missing url"
sanitized_url u (some raw) = elim (sanitize_preview_url u raw) [
  | none ↦ refuse "Invalid url"
  | some url ↦ allow url
]

limited_by_session : Operation
limited_by_session = record {
  op = 28;
  prefix = "link_preview:session:";
  limit = 40;
  window_ms = 30000;
}

limited_by_user : Operation
limited_by_user = record { op = 28; prefix = "link_preview:user:"; limit = 40; window_ms = 30000 }

-- The message that a preview is asked for; `none` where it has one already.
preview_request : Option (List ChatMessageRecord) → Text → Verdict (Option (Option ℕ))
preview_request none message_id = refuse "Unknown messageId"
preview_request (some messages) message_id = elim (message_in message_id messages) [
  | none ↦ refuse "Unknown messageId"
  | some m ↦
      if m.deleted
      then refuse "Message was deleted"
      else if not (is_some m.encrypted)
      then refuse "Preview requests are only needed for encrypted messages"
      else if is_some m.preview
      then allow none
      else allow (some m.edited_at)
]

-- The address to fetch, with the time of the edit it is for, or `none` where there is a preview.
unfoldable pub request_link_preview : Unicode → Env → Text → Json → Act (Option (Text × Option ℕ))
unfolding sanitized_url preview_request limited_by_session limited_by_user
request_link_preview u env session_id d = do
  room_id ← or_respond session_id 28 (trimmed_field u.trim d "gameId") "Missing gameId"
  verdict session_id 28 (validate_room_id room_id)
  message_id ← or_respond session_id 28 (trimmed_field u.trim d "messageId") "Missing messageId"
  stop_if (is_empty message_id) session_id 28 "Missing messageId"
  url ← verdict session_id 28 (sanitized_url u (str_field d "url"))
  s ← get
  player ← or_respond session_id 28 (identified session_id s) "You need to be identified before"
  stop_if (not (contains player.rooms room_id)) session_id 28 "Not a member of this room"
  over ←
      if is_empty player.user_id
      then rate_limited limited_by_session session_id env
      else rate_limited limited_by_user player.user_id env
  stop_if over session_id 28 "Rate limit exceeded"
  wanted ← verdict session_id 28 (preview_request (lookup room_id s.room_messages) message_id)
  update (respond_to_sender session_id 28 (message_ok message_id))
  done (elim wanted [ none ↦ none | some edited_at ↦ some (url, edited_at) ])
