-- ===== src/Chat/Keeps/Rooms.antt =====
-- What the stored messages promise, under the changes that the operations make.
use lqxp.Common.{
  ℕ, zero, suc, ◌-◌, ◌≡◌, refl, inl, inr, true, some, List, [], ◌∷◌, ◌++◌, arith, Bool-cases, ◌==◌,
  length, drop, all, length-drop, Assoc, lookup, remove, insert, contains_key, adjust, Text,
  text_Eq,
}
use lqxp.Chat.Record.{ChatMessageRecord}
use lqxp.Chat.Messages.{
  max_room_messages, message_in, change_message, change_message_in, pushed, store_room_message,
}
use lqxp.Chat.Keeps.{message_ok, room_ok, rooms_ok, ChatOk}
use lqxp.Room.Server.{Server}

length-change_message :
    (id : Text) (f : ChatMessageRecord → ChatMessageRecord) (ms : List ChatMessageRecord)
    → length (change_message id f ms) ≡ length ms
unfolding change_message
length-change_message id f [] = refl
length-change_message id f (m ∷ ms) = ground (arith, length-change_message id f ms)

all-change_message :
    (id : Text) (f : ChatMessageRecord → ChatMessageRecord) (ms : List ChatMessageRecord)
    → ((m : ChatMessageRecord)
        → message_in id ms ≡ some m
        → message_ok m ≡ true
        → message_ok (f m) ≡ true)
    → all message_ok ms ≡ true
    → all message_ok (change_message id f ms) ≡ true
unfolding change_message all message_in
all-change_message id f [] g h = refl
all-change_message id f (m ∷ ms) g h = elim (Bool-cases (m.message_id == id)) [
  | inl e ↦ ground (arith, g m (rw e refl) (ground arith))
  | inr e ↦ ground (arith, all-change_message id f ms (λ n q. g n (rw e q)) (ground arith))
]

pub rooms_ok-adjust :
    (k : Text) (g : List ChatMessageRecord → List ChatMessageRecord)
    (rooms : Assoc Text (List ChatMessageRecord))
    → ((ms : List ChatMessageRecord)
        → lookup k rooms ≡ some ms
        → room_ok ms ≡ true
        → room_ok (g ms) ≡ true)
    → rooms_ok rooms ≡ true
    → rooms_ok (adjust k g rooms) ≡ true
unfolding rooms_ok adjust lookup
rooms_ok-adjust k g [] f h = refl
rooms_ok-adjust k g ((j, ms) ∷ rooms) f h = elim (Bool-cases (j == k)) [
  | inl e ↦ ground (arith, f ms (rw e refl) (ground arith))
  | inr e ↦ ground (arith, rooms_ok-adjust k g rooms (λ n q. f n (rw e q)) (ground arith))
]

pub rooms_ok-lookup :
    (k : Text) (rooms : Assoc Text (List ChatMessageRecord)) (ms : List ChatMessageRecord)
    → rooms_ok rooms ≡ true
    → lookup k rooms ≡ some ms
    → room_ok ms ≡ true
unfolding rooms_ok lookup
rooms_ok-lookup k [] ms h q = cc
rooms_ok-lookup k ((j, ns) ∷ rooms) ms h q = ground (arith, rooms_ok-lookup k rooms ms)

rooms_ok-remove :
    (k : Text) (rooms : Assoc Text (List ChatMessageRecord))
    → rooms_ok rooms ≡ true
    → rooms_ok (remove k rooms) ≡ true
unfolding rooms_ok remove
rooms_ok-remove k [] h = refl
rooms_ok-remove k ((j, ns) ∷ rooms) h = ground (arith, rooms_ok-remove k rooms)

-- A change of the message found keeps the promise if what it makes of that message does.
pub change_message_in-ChatOk :
    (room_id id : Text) (f : ChatMessageRecord → ChatMessageRecord) (s : Server)
    → ((ms : List ChatMessageRecord) (m : ChatMessageRecord)
        → lookup room_id s.room_messages ≡ some ms
        → message_in id ms ≡ some m
        → message_ok m ≡ true
        → message_ok (f m) ≡ true)
    → ChatOk s
    → ChatOk (change_message_in room_id id f s)
unfolding change_message_in room_ok
change_message_in-ChatOk room_id id f s g h =
    rooms_ok-adjust room_id (change_message id f) s.room_messages
      (λ ms q r. ground (
        arith,
        length-change_message id f ms,
        all-change_message id f ms (λ m. g ms m q) (ground arith),
      ))
      h

all-append :
    (ms : List ChatMessageRecord) (m : ChatMessageRecord)
    → all message_ok ms ≡ true
    → message_ok m ≡ true
    → all message_ok (ms ++ m ∷ []) ≡ true
unfolding all
all-append [] m h k = ground arith
all-append (n ∷ ms) m h k = ground (arith, all-append ms m)

all-drop :
    (n : ℕ) (ms : List ChatMessageRecord)
    → all message_ok ms ≡ true
    → all message_ok (drop n ms) ≡ true
unfolding all
all-drop zero ms h = h
all-drop (suc n) [] h = refl
all-drop (suc n) (m ∷ ms) h = all-drop n ms (ground arith)

pushed-room_ok :
    (m : ChatMessageRecord) (ms : List ChatMessageRecord)
    → message_ok m ≡ true
    → room_ok ms ≡ true
    → room_ok (pushed m ms) ≡ true
unfolding pushed room_ok
pushed-room_ok m ms k h =
    let all_ms = ms ++ m ∷ [] in
    let over = length all_ms - max_room_messages in
    ground (arith, length-drop over all_ms, all-drop over all_ms (all-append ms m (ground arith) k))

empty_ok : room_ok [] ≡ true
unfolding room_ok all
empty_ok = refl

pub store_room_message-ChatOk :
    (room_id : Text) (m : ChatMessageRecord) (s : Server)
    → message_ok m ≡ true
    → ChatOk s
    → ChatOk (store_room_message room_id m s)
unfolding store_room_message insert rooms_ok
store_room_message-ChatOk room_id m s k h =
    elim (Bool-cases (contains_key room_id s.room_messages)) [
      | inl c ↦
          rw c
            (rooms_ok-adjust room_id (pushed m) s.room_messages (λ ms q. pushed-room_ok m ms k) h)
      | inr c ↦
          rw c (
            ground (arith, rooms_ok-remove room_id s.room_messages, pushed-room_ok m [] k empty_ok))
    ]
