-- ===== src/Chat/Keeps.antt =====
-- What an action that may stop early keeps of the stored messages, and the actions that the
-- operations are put together from.
pub mod Rooms
use lqxp.Common.{
  ℕ, ◌-◌, ◌≡◌, inl, inr, Bool, true, false, ◌&&◌, ◌||◌, not, Option, none, some, List, [], ◌∷◌, leb,
  if◌then◌else◌, Bool-cases, length, is_empty, all, Assoc, is_some, contains_key, Text, text,
  text_Eq,
}
use Prim.Native.String.{String}
use lqxp.Chat.Record.{ChatMessageRecord}
use lqxp.Chat.Messages.{max_room_messages}
use lqxp.Room.Decide.{Verdict, allow, refuse}
use lqxp.Room.Acts.{Operation, rate_limited, or_respond, verdict, stop_if, get, update}
use lqxp.Room.Server.{
  Act, and_then, ◌>>=◌, ◌>>◌, done, Server, Env, Payload, respond_to_sender, respond_error,
  broadcast_to_room,
}

-- A deleted message holds nothing of what was said; an encrypted one holds no plain text and no file.
unfoldable pub message_ok : ChatMessageRecord → Bool
message_ok m =
    if m.deleted
    then is_empty m.body
      && (not (is_some m.attachment) && (not (is_some m.encrypted) && not (is_some m.preview)))
    else not (is_some m.encrypted) || (is_empty m.body && not (is_some m.attachment))

-- And a room holds at most `MAX_ROOM_MESSAGES` messages.
unfoldable pub room_ok : List ChatMessageRecord → Bool
unfolding message_ok
room_ok messages = leb (length messages) max_room_messages && all message_ok messages

unfoldable pub rooms_ok : Assoc Text (List ChatMessageRecord) → Bool
unfolding room_ok
rooms_ok [] = true
rooms_ok ((room_id, messages) ∷ rooms) = room_ok messages && rooms_ok rooms

abbrev pub ChatOk : Server → Type 0
ChatOk s = rooms_ok s.room_messages ≡ true

-- Wherever the action stops, the stored messages are as they should be, if they were before.
pub record Keeps {A : Type 0} (m : Act A) : Type 0 where
  pub kept : (s : Server) → ChatOk s → ChatOk (m s).1

and_then-ChatOk :
    {A B : Type 0} (r : Option A × Server) (f : A → Act B)
    → ChatOk r.1
    → ((a : A) → Keeps (f a))
    → ChatOk (and_then r f).1
and_then-ChatOk (none, s) f h k = h
and_then-ChatOk (some a, s) f h k = (k a).kept s h

pub bind-Keeps :
    {A B : Type 0} {m : Act A} {f : A → Act B} → Keeps m → ((a : A) → Keeps (f a)) → Keeps (m >>= f)
bind-Keeps {m = m} {f = f} h k = record { kept = λ s h0. and_then-ChatOk (m s) f (h.kept s h0) k }

pub then-Keeps : {A B : Type 0} {m : Act A} {k : Act B} → Keeps m → Keeps k → Keeps (m >> k)
then-Keeps {m = m} {k = k} h j = record {
  kept = λ s h0. and_then-ChatOk (m s) (λ _. k) (h.kept s h0) (λ _. j);
}

pub respond_to_sender-ChatOk :
    (session_id : Text) (op : ℕ) (payload : Payload) (s : Server)
    → ChatOk s
    → ChatOk (respond_to_sender session_id op payload s)
unfolding respond_to_sender
respond_to_sender-ChatOk session_id op payload s h =
    elim (Bool-cases (contains_key session_id s.players)) [ inl c ↦ rw c h | inr c ↦ rw c h ]

pub respond_error-Keeps :
    {A : Type 0} (session_id : Text) (op : ℕ) (message : String)
    → Keeps (respond_error {A = A} session_id op message)
unfolding respond_error
respond_error-Keeps session_id op message = record {
  kept = λ s h. respond_to_sender-ChatOk session_id op _ s h;
}

pub rate_limited-Keeps :
    (o : Operation) (session_id : Text) (env : Env) → Keeps (rate_limited o session_id env)
unfolding rate_limited
rate_limited-Keeps o session_id env = record { kept = λ s h. h }

pub or_respond-Keeps :
    {A : Type 0} (session_id : Text) (op : ℕ) (a : Option A) (message : String)
    → Keeps (or_respond session_id op a message)
unfolding or_respond
or_respond-Keeps session_id op none message = respond_error-Keeps session_id op message
or_respond-Keeps session_id op (some a) message = record { kept = λ s h. h }

pub verdict-Keeps :
    {A : Type 0} (session_id : Text) (op : ℕ) (v : Verdict A) → Keeps (verdict session_id op v)
unfolding verdict
verdict-Keeps session_id op (refuse message) = respond_error-Keeps session_id op message
verdict-Keeps session_id op (allow a) = record { kept = λ s h. h }

pub stop_if-Keeps :
    (c : Bool) (session_id : Text) (op : ℕ) (message : String)
    → Keeps (stop_if c session_id op message)
unfolding stop_if
stop_if-Keeps true session_id op message = respond_error-Keeps session_id op message
stop_if-Keeps false session_id op message = record { kept = λ s h. h }

pub get-Keeps : Keeps get
get-Keeps = record { kept = λ s h. h }

pub done-Keeps : {A : Type 0} {a : A} → Keeps (done a)
done-Keeps = record { kept = λ s h. h }

pub update-Keeps :
    {f : Server → Server} → ((s : Server) → ChatOk s → ChatOk (f s)) → Keeps (update f)
update-Keeps h = record { kept = h }

pub broadcast_to_room-ChatOk :
    (room_id : Text) (op : ℕ) (payload : Payload) (s : Server)
    → ChatOk s
    → ChatOk (broadcast_to_room room_id op payload s)
unfolding broadcast_to_room
broadcast_to_room-ChatOk room_id op payload s h = h

pub respond-Keeps :
    (session_id : Text) (op : ℕ) (payload : Payload)
    → Keeps (update (respond_to_sender session_id op payload))
respond-Keeps session_id op payload = update-Keeps (respond_to_sender-ChatOk session_id op payload)

pub broadcast-Keeps :
    (room_id : Text) (op : ℕ) (payload : Payload)
    → Keeps (update (broadcast_to_room room_id op payload))
broadcast-Keeps room_id op payload = update-Keeps (broadcast_to_room-ChatOk room_id op payload)

pub if-ChatOk :
    {A : Type 0} (c : Bool) (a b : Option A × Server)
    → ChatOk a.1
    → ChatOk b.1
    → ChatOk (if c then a else b).1
if-ChatOk true a b h k = h
if-ChatOk false a b h k = k

-- The parts of an operation that leave the stored messages alone.
pub ruleset keeping = (
  bind-Keeps, then-Keeps, rate_limited-Keeps, or_respond-Keeps, verdict-Keeps, stop_if-Keeps,
  get-Keeps, done-Keeps, respond-Keeps, broadcast-Keeps,
)
