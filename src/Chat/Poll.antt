-- ===== src/Chat/Poll.antt =====
-- `vote_poll` of websocket/protocol.rs and what it calls.
pub mod Votes
pub mod Kept
use lqxp.Common.{
  ℕ, zero, suc, ◌+◌, ◌-◌, ◌*◌, ◌/◌, ◌%◌, ◌^◌, ◌<◌, Bool, ◌&&◌, not, Option, none, some, List, [],
  ◌∷◌, ◌++◌, map, ltb, leb, nat_beq, if◌then◌else◌, ◌==◌, length, is_empty, filter, any, contains,
  set_insert, Assoc, unwrap_or, lookup, insert, Text, after, text_Eq,
}
use Prim.Native.Nat.{min}
use lqxp.Common.Json.{Json, get_field, as_u64, as_array, trimmed_field, nonempty}
use lqxp.Chat.Record.{ChatMessageRecord, PollTally}
use lqxp.Chat.Messages.{room_with}
use lqxp.Room.Acts.{Operation, rate_limited, or_respond, stop_if, get, update}
use lqxp.Room.Server.{
  Act, and_then, ◌>>=◌, ◌>>◌, done, Server, PlayerSession, Env, Payload, Frame, message_ok,
  poll_update, respond_to_sender, respond_error,
}

abbrev pub max_poll_options : ℕ
max_poll_options = 10

abbrev poll_limit : Operation
poll_limit = record { op = 53; prefix = "poll_vote:session:"; limit = 10; window_ms = 10000 }

-- `filter_map(Value::as_u64)` and `filter(|v| *v < MAX_POLL_OPTIONS)`
read_choices : List Json → List ℕ
read_choices [] = []
read_choices (v ∷ vs) = elim (as_u64 (some v)) [
  | none ↦ read_choices vs
  | some n ↦ if ltb n max_poll_options then n ∷ read_choices vs else read_choices vs
]

-- `sort_unstable` and `dedup` of numbers: into increasing order, each once.
insert_choice : ℕ → List ℕ → List ℕ
insert_choice n [] = n ∷ []
insert_choice n (m ∷ ms) = if leb n m then n ∷ m ∷ ms else m ∷ insert_choice n ms

sort_unstable : List ℕ → List ℕ
unfolding insert_choice
sort_unstable [] = []
sort_unstable (n ∷ ns) = insert_choice n (sort_unstable ns)

dedup_after : ℕ → List ℕ → List ℕ
dedup_after n [] = n ∷ []
dedup_after n (m ∷ ms) = let rest = dedup_after m ms in if nat_beq n m then rest else n ∷ rest

dedup : List ℕ → List ℕ
unfolding dedup_after
dedup [] = []
dedup (n ∷ ns) = dedup_after n ns

listed : Option (List Json) → List ℕ
unfolding read_choices
listed none = []
listed (some vs) = read_choices vs

unfoldable pub choices_of : Json → List ℕ
unfolding sort_unstable dedup listed
choices_of d = dedup (sort_unstable (listed (as_array (get_field d "choices"))))

-- `tally.counts.resize(needed, 0)`, only to grow.
unfoldable pub resize : ℕ → List ℕ → List ℕ
resize zero counts = counts
resize (suc n) [] = 0 ∷ resize n []
resize (suc n) (c ∷ counts) = c ∷ resize n counts

-- `tally.counts[choice] += 1` on `u32`; a panic on overflow needs 2^32 voters.
unfoldable pub increment : ℕ → List ℕ → List ℕ
increment i [] = []
increment zero (c ∷ counts) = (c + 1) % 2 ^ 32 ∷ counts
increment (suc i) (c ∷ counts) = c ∷ increment i counts

unfoldable pub count_choices : List ℕ → List ℕ → List ℕ
unfolding increment
count_choices [] counts = counts
count_choices (choice ∷ choices) counts = count_choices choices (increment choice counts)

-- `choices.iter().max().map(|max| max + 1).unwrap_or(0)`
unfoldable pub needed : List ℕ → ℕ
needed [] = 0
needed (choice ∷ choices) =
    let rest = needed choices in if ltb rest (choice + 1) then choice + 1 else rest

abbrev pub empty_tally : PollTally
empty_tally = record { voters = []; counts = [] }

-- The tally after a vote, or none where the voter has voted.
unfoldable pub cast_vote : Text → List ℕ → PollTally → Option PollTally
unfolding resize count_choices needed
cast_vote voter choices tally =
    if contains tally.voters voter
    then none
    else some record {
      voters = set_insert voter tally.voters;
      counts = count_choices choices (resize (needed choices) tally.counts);
    }

unfoldable pub tally_of : Text → Server → PollTally
tally_of message_id s = unwrap_or (lookup message_id s.poll_tallies) empty_tally

voter_account : Option PlayerSession → Option PlayerSession
voter_account none = none
voter_account (some player) = if is_empty player.user_id then none else some player

abbrev is_votable : Text → ChatMessageRecord → Bool
is_votable message_id m = m.message_id == message_id && not m.deleted

-- `poll_voter_hash` is SHA-256 over the process's salt, the message and the user, in hexadecimal.
module _ (trim : Text → Text) (poll_voter_hash : Text → Text → Text) where
  -- `poll_state_for`: how many have voted and, for those who have, the counts.
  unfoldable pub poll_state_for : Text → PollTally → Text → ℕ × Option (List ℕ)
  poll_state_for message_id tally user_id = (
    length tally.voters,
    if not (is_empty user_id) && contains tally.voters (poll_voter_hash message_id user_id)
        then some tally.counts
        else none,
  )

  poll_frames : Text → Text → PollTally → Assoc Text PlayerSession → List Frame
  unfolding poll_state_for
  poll_frames room_id message_id tally [] = []
  poll_frames room_id message_id tally ((id, player) ∷ players) =
      let rest = poll_frames room_id message_id tally players in
      let (total, counts) = poll_state_for message_id tally player.user_id in
      if contains player.rooms room_id
      then record { session = id; op = 54; payload = poll_update room_id message_id total counts }
        ∷ rest
      else rest

  -- An entry is made for the message before the voter is looked up in it.
  record_vote : Text → Text → List ℕ → Text → Act PollTally
  unfolding tally_of cast_vote insert
  record_vote session_id message_id choices user_id s =
      let tally = tally_of message_id s in
      let entered = record s { poll_tallies = insert message_id tally s.poll_tallies } in
      elim (cast_vote (poll_voter_hash message_id user_id) choices tally) [
        | none ↦ respond_error session_id 53 "Already voted" entered
        | some voted ↦
            (some voted, record s { poll_tallies = insert message_id voted s.poll_tallies })
      ]

  unfoldable pub vote_poll : Env → Text → Json → Act (Unit {0})
  unfolding voter_account room_with record_vote poll_frames choices_of
  vote_poll env session_id d = do
    over ← rate_limited poll_limit session_id env
    stop_if over session_id 53 "Rate limit exceeded"
    message_id ←
        or_respond session_id 53 (nonempty (trimmed_field trim d "messageId")) "Missing messageId"
    stop_if (is_empty (choices_of d)) session_id 53 "Missing choices"
    s ← get
    player ←
        or_respond session_id 53 (voter_account (lookup session_id s.players))
          "You need to be identified before"
    room_id ←
        or_respond session_id 53
          (room_with
            (λ room messages. contains player.rooms room && any (is_votable message_id) messages)
            s.room_messages)
          "Unknown messageId"
    tally ← record_vote session_id message_id (choices_of d) player.user_id
    update (λ s. record s { sent = s.sent ++ poll_frames room_id message_id tally s.players })
    update (respond_to_sender session_id 53 (message_ok message_id))
