-- ===== src/Chat/Send/Spacing.antt =====
-- The interval between the messages of one session.
use lqxp.Common.{
  ℕ, ◌+◌, ◌≤◌, ◌≡◌, refl, sym, ap, ◌∙◌, inl, inr, Option, none, some, arith, Option-cases, eq_refl,
  lookup, lookup-adjust, Text, text_Eq,
}
use lqxp.Chat.Send.{
  min_between_message_interval, refusal, too_soon, take_turn, take_turn_as, mark_sent,
}
use lqxp.Room.Server.{Server, PlayerSession, respond_to_sender, respond_error, error_text}

refusal-none :
    (p : PlayerSession) (room : Text) (now : ℕ)
    → refusal p room now ≡ none
    → too_soon p.last_message_timestamp now ≡ none
unfolding refusal
refusal-none p room now h = ground arith

some_injective : {p q : PlayerSession} → some p ≡ some q → p ≡ q
some_injective h = cc

abbrev Turn : Type 0
Turn = Option PlayerSession × Server

some_first :
    (t u : Server) (p q : PlayerSession)
    → ◌≡◌ {A = Turn} (some p, t) (some q, u)
    → (p ≡ q) × (t ≡ u)
some_first t u p q h =
    let one : some p ≡ some q = ap (λ (r : Turn). r.0) h in (cc, ap (λ (r : Turn). r.1) h)

none_first :
    {X : Type 0} (t u : Server) (q : PlayerSession) → ◌≡◌ {A = Turn} (none, t) (some q, u) → X
none_first t u q h = let one : none ≡ some q = ap (λ (r : Turn). r.0) h in cc

turn_taken :
    (o : Option PlayerSession) (session_id room : Text) (now : ℕ) (s t : Server) (p : PlayerSession)
    → take_turn_as o session_id room now s ≡ (some p, t)
    → (o ≡ some p)
      × (too_soon p.last_message_timestamp now ≡ none)
      × (mark_sent session_id now s ≡ t)
unfolding take_turn_as respond_error
turn_taken none session_id room now s t p h =
    none_first
      (respond_to_sender session_id 7
        (error_text "You need to be identified before sending message") s)
      t p h
turn_taken (some o) session_id room now s t p h = elim (Option-cases (refusal o room now)) [
  | inr (payload, c) ↦
      let after_ = respond_to_sender session_id 7 payload s in
      let stops : take_turn_as (some o) session_id room now s ≡ (none, after_) =
        rw (take_turn_as, c) refl in
      none_first after_ t p (sym stops ∙ h)
  | inl c ↦
      let goes : take_turn_as (some o) session_id room now s
          ≡ (some o, mark_sent session_id now s) =
        rw (take_turn_as, c) refl in
      let (same_player, marked) = some_first (mark_sent session_id now s) t o p (sym goes ∙ h) in
      (
        ap some same_player,
        ap (λ (x : PlayerSession). too_soon x.last_message_timestamp now) (sym same_player)
            ∙ refusal-none o room now c,
        marked,
      )
]

-- A session that takes two turns, the second from where the first leaves the server, takes them
-- at least 400 ms apart, whatever the rooms.
pub take_turn_spacing :
    (session_id first_room second_room : Text) (first second : ℕ) (s t u : Server)
    (p q : PlayerSession)
    → take_turn session_id first_room first s ≡ (some p, t)
    → take_turn session_id second_room second t ≡ (some q, u)
    → first + min_between_message_interval ≤ second
unfolding take_turn too_soon mark_sent
take_turn_spacing session_id first_room second_room first second s t u p q h k =
    let (there, _, marked) =
      turn_taken (lookup session_id s.players) session_id first_room first s t p h in
    let (again, spaced, _) =
      turn_taken (lookup session_id t.players) session_id second_room second t u q k in
    let read =
      lookup-adjust session_id session_id
        (λ (x : PlayerSession). record x { last_message_timestamp = some first }) p s.players
        there in
    let noted : lookup session_id t.players
        ≡ some (record p { last_message_timestamp = some first }) =
      ap (λ (x : Server). lookup session_id x.players) (sym marked)
      ∙ read
      ∙ rw (eq_refl session_id) refl in
    let same_player : record p { last_message_timestamp = some first } ≡ q =
      some_injective (sym noted ∙ again) in
    let last : q.last_message_timestamp ≡ some first =
      sym (ap (λ (x : PlayerSession). x.last_message_timestamp) same_player) in
    let gap : too_soon (some first) second ≡ none =
      ap (λ o. too_soon o second) (sym last) ∙ spaced in
    ground arith
