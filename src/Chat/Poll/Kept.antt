-- ===== src/Chat/Poll/Kept.antt =====
-- The stored messages under a vote.
use lqxp.Common.{ℕ, inl, inr, List, Option-cases, Text, text_Eq}
use lqxp.Common.Json.{Json}
use lqxp.Chat.Poll.{vote_poll, record_vote, cast_vote, tally_of}
use lqxp.Chat.Keeps.{Keeps, keeping, update-Keeps, respond_error-Keeps}
use lqxp.Room.Server.{Env}

record_vote-Keeps :
    (trim : Text → Text) (voter_hash : Text → Text → Text) (session_id message_id : Text)
    (choices : List ℕ) (user_id : Text)
    → Keeps (record_vote trim voter_hash session_id message_id choices user_id)
unfolding record_vote
record_vote-Keeps trim voter_hash session_id message_id choices user_id = record {
  kept = λ s h.
      elim (Option-cases
        (cast_vote (voter_hash message_id user_id) choices (tally_of message_id s))) [
          | inl none_ ↦
              rw (record_vote, none_) ((respond_error-Keeps session_id 53 "Already voted").kept _ h)
          | inr (voted, q) ↦ rw (record_vote, q) h
        ];
}

pub vote-Keeps :
    (trim : Text → Text) (voter_hash : Text → Text → Text) (env : Env) (session_id : Text)
    (d : Json)
    → Keeps (vote_poll trim voter_hash env session_id d)
unfolding vote_poll
vote-Keeps trim voter_hash env session_id d =
    search (keeping, record_vote-Keeps, update-Keeps) depth 30
