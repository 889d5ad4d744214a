-- ===== src/Chat/Preview/Kept.antt =====
-- The stored messages under a preview that is asked for or arrives.
use lqxp.Common.{
  ℕ, ◌≡◌, refl, sym, ap, ◌∙◌, inl, inr, Bool, true, false, ◌&&◌, not, Option, some, arith,
  if◌then◌else◌, Bool-cases, Option-cases, is_some, Text, text_Eq,
}
use lqxp.Common.Json.{Json}
use lqxp.Chat.Record.{ChatMessageRecord, LinkPreview}
use lqxp.Chat.Preview.{
  request_link_preview, stored_in, show_preview, patch, preview_for_new, preview_for_edit,
  preview_for_request,
}
use lqxp.Chat.Keeps.{
  message_ok, ChatOk, Keeps, keeping, rate_limited-Keeps, broadcast_to_room-ChatOk,
}
use lqxp.Chat.Keeps.Rooms.{change_message_in-ChatOk}
use lqxp.Room.Acts.{Operation, rate_limited}
use lqxp.Room.Server.{Server, Env}
use lqxp.Account.Names.{Unicode}

limited-Keeps :
    (c : Bool) (o p : Operation) (a b : Text) (env : Env)
    → Keeps (if c then rate_limited o a env else rate_limited p b env)
limited-Keeps true o p a b env = rate_limited-Keeps o a env
limited-Keeps false o p a b env = rate_limited-Keeps p b env

pub ask-Keeps :
    (u : Unicode) (env : Env) (session_id : Text) (d : Json)
    → Keeps (request_link_preview u env session_id d)
unfolding request_link_preview
ask-Keeps u env session_id d = search (keeping, limited-Keeps) depth 50

with_preview-ok :
    (m : ChatMessageRecord) (p : LinkPreview)
    → m.deleted ≡ false
    → message_ok m ≡ true
    → message_ok (record m { preview = some p }) ≡ true
unfolding message_ok
with_preview-ok m p h k = ground arith

some_injective : {n m : ChatMessageRecord} → some n ≡ some m → n ≡ m
some_injective h = cc

-- The message that is patched is the one that was read, and is not deleted.
patch-ChatOk :
    (room_id id : Text) (p : LinkPreview) (s : Server) (m : ChatMessageRecord)
    → stored_in room_id id s ≡ some m
    → m.deleted ≡ false
    → ChatOk s
    → ChatOk (patch room_id id p s)
unfolding patch show_preview
patch-ChatOk room_id id p s m q live h = broadcast_to_room-ChatOk room_id 23 _ _ (
    change_message_in-ChatOk room_id id (λ m. record m { preview = some p }) s
      (λ ms n in_room found k.
        let read : stored_in room_id id s ≡ some n = rw (stored_in, in_room) found in
        let same_one : n ≡ m = some_injective (sym read ∙ q) in
        with_preview-ok n p (ap (λ (x : ChatMessageRecord). x.deleted) same_one ∙ live) k)
      h)

if-ok : (c : Bool) (s t : Server) → ChatOk s → (c ≡ false → ChatOk t) → ChatOk (if c then s else t)
if-ok true s t h k = h
if-ok false s t h k = k refl

pub preview_for_new-ChatOk :
    (room_id id : Text) (p : LinkPreview) (s : Server)
    → ChatOk s
    → ChatOk (preview_for_new room_id id p s)
unfolding preview_for_new
preview_for_new-ChatOk room_id id p s h = elim (Option-cases (stored_in room_id id s)) [
  | inl q ↦ rw (preview_for_new, q) (broadcast_to_room-ChatOk room_id 23 _ s h)
  | inr (m, q) ↦
      rw (preview_for_new, q)
        (elim (Bool-cases (not m.deleted && not (is_some m.edited_at))) [
          | inl c ↦ rw c (patch-ChatOk room_id id p s m q (ground arith) h)
          | inr c ↦ rw c h
        ])
]

pub preview_for_edit-ChatOk :
    (room_id id : Text) (edited_at : ℕ) (p : LinkPreview) (s : Server)
    → ChatOk s
    → ChatOk (preview_for_edit room_id id edited_at p s)
unfolding preview_for_edit
preview_for_edit-ChatOk room_id id edited_at p s h = elim (Option-cases (stored_in room_id id s)) [
  | inl q ↦ rw (preview_for_edit, q) h
  | inr (m, q) ↦
      rw (preview_for_edit, q)
        (if-ok _ s _ h (λ c. patch-ChatOk room_id id p s m q (ground arith) h))
]

pub preview_for_request-ChatOk :
    (room_id id : Text) (edited_at : Option ℕ) (p : LinkPreview) (s : Server)
    → ChatOk s
    → ChatOk (preview_for_request room_id id edited_at p s)
unfolding preview_for_request
preview_for_request-ChatOk room_id id edited_at p s h =
    elim (Option-cases (stored_in room_id id s)) [
      | inl q ↦ rw (preview_for_request, q) h
      | inr (m, q) ↦
          rw (preview_for_request, q)
            (if-ok _ s _ h (λ c. patch-ChatOk room_id id p s m q (ground arith) h))
    ]
