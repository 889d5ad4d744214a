-- ===== src/Examples/Phantom.antt =====
-- Runs of the dead-drop store, the nonce store and the two requests.
use lqxp.Common.{
  ℕ, zero, suc, ◌<◌, ◌≡◌, refl, Bool, true, false, Option, none, some, List, [], ◌∷◌, ◌++◌, arith,
  length, all, lookup, contains_key, Text, text, text_eq, split, decimal, parse_u64, ApiResult,
  forbidden, ok, err, text_Eq,
}
use Prim.Native.Nat.{min}
use lqxp.Core.Rln.{
  EpochQuotaToken, generate_quota_token, compute_nullifier, verify_ticket_signature,
  verify_and_consume_nullifier,
}
use lqxp.Core.Once.{consume}
use lqxp.Core.ConstantTime.{constant_time_eq}
use lqxp.Core.Token.{token_text, token_parts, take_token}
use lqxp.Core.RateLimit.{rate_limit_hit}
use lqxp.Core.Cap.{verify_and_consume_cap_token, token_signature}
use lqxp.Phantom.Store.{
  PhantomEnvelope, StoredEnvelope, Queue, DeadDropStore, stored, try_deposit, claim, sum_queues,
  drop_expired,
}
use lqxp.Phantom.Store.Bounds.{StoreOk, depositing, claiming, sweeping, after_uses, store_bounds}
use lqxp.Phantom.Store.Claim.{has_expired, queue_of, claim_takes_oldest_live, deposit_then_claim}
use lqxp.Phantom.PrivacyPass.{MemoryNonceStore, reserved, reserve, commit, release}
use lqxp.Phantom.PrivacyPass.Nonces.{
  NoncesOk, reserving, committing, releasing, after_nonces, nonce_store_bound, nonce_committed_once,
}
use lqxp.Phantom.Mailbox.{
  Mailbox, Clock, PhantomDepositRequest, PhantomPollRequest, PhantomGateMode, cap,
  validate_envelope, poll, max_want,
}
use lqxp.Phantom.Mailbox
use lqxp.Phantom.Mailbox.Requests.{
  QuotaPaid, gate_answer, deposit_accepted, deposit_refused_keeps, poll_answers_wanted,
}

abbrev zeros : ℕ → Text
zeros zero = []
zeros (suc n) = b'0' ∷ zeros n

abbrev hex_id : Text
hex_id = zeros 64

abbrev envelope : PhantomEnvelope
envelope = record {
  pv = 1;
  slot_id = hex_id;
  recipient_fp = hex_id;
  sender_hint = hex_id;
  bucket = 4096;
  ct = text "hello";
}

store_bounds_example : StoreOk (
    after_uses
      (depositing envelope 0 ∷ depositing envelope 1 ∷ claiming hex_id 2 ∷ sweeping 86400001 ∷ [])
      [])
store_bounds_example =
    store_bounds
      (depositing envelope 0 ∷ depositing envelope 1 ∷ claiming hex_id 2 ∷ sweeping 86400001 ∷ [])

-- The first envelope has expired, the second has not.
abbrev two_stored : DeadDropStore
two_stored = (hex_id, stored envelope 0 ∷ stored envelope 10 ∷ []) ∷ []

second_claimed : (claim hex_id 86400005 two_stored).0 ≡ some envelope
unfolding claim drop_expired lookup text_eq
second_claimed = refl

claim_takes_oldest_live_example :
    (dead : Queue) × (entry : StoredEnvelope) × (rest : Queue) × (lookup hex_id two_stored
      ≡ some (dead ++ entry ∷ rest))
    × (all (has_expired 86400005) dead ≡ true)
    × (86400005 < entry.expires_at)
    × (entry.envelope ≡ envelope)
    × (queue_of hex_id (claim hex_id 86400005 two_stored).1 ≡ rest)
claim_takes_oldest_live_example =
    claim_takes_oldest_live hex_id 86400005 two_stored envelope second_claimed

deposit_then_claim_example : (claim hex_id 5 (try_deposit envelope 0 []).1).0 ≡ some envelope
unfolding try_deposit sum_queues lookup text
deposit_then_claim_example =
    deposit_then_claim envelope 0 5 [] refl refl (omega arith) (omega arith)

abbrev nonces : MemoryNonceStore
nonces = record { entries = (text "a", record { state = reserved; seq = 0 }) ∷ []; next_seq = 1 }

nonce_store_bound_example :
    NoncesOk (
      after_nonces
        (reserving (text "b") ∷ committing (text "a") ∷ releasing (text "b") ∷ [])
        nonces)
nonce_store_bound_example =
    nonce_store_bound (reserving (text "b") ∷ committing (text "a") ∷ releasing (text "b") ∷ [])
      nonces (record { distinct = (unfold lookup in refl, tt); bound = omega arith })

nonce_committed_once_example :
    ((commit (text "b") (reserve (text "b") nonces).1).0 ≡ true)
    × (reserve (text "b") (commit (text "b") (reserve (text "b") nonces).1).1
        ≡ (false, (commit (text "b") (reserve (text "b") nonces).1).1))
    × (commit (text "b") (commit (text "b") (reserve (text "b") nonces).1).1
        ≡ (false, (commit (text "b") (reserve (text "b") nonces).1).1))
    × (release (text "b") (commit (text "b") (reserve (text "b") nonces).1).1
        ≡ (commit (text "b") (reserve (text "b") nonces).1).1)
unfolding reserve contains_key lookup text_eq text
nonce_committed_once_example = nonce_committed_once (text "b") nonces refl

abbrev tagged : Text → Text
tagged s = 104 ∷ s

abbrev quota : EpochQuotaToken
quota = generate_quota_token tagged (λ s. hex_id) 1500000 (text "ff")

abbrev cap_token : Text
cap_token =
    token_text "cap" (text "ab") 2000000
      (token_signature (λ s. text "aa") (text "ab") (text "phantom") 2000000)

abbrev mailbox : Mailbox
mailbox = record {
  rate_limits = [];
  nullifiers = [];
  cap_tokens = (cap_token, 2000000) ∷ [];
  pass_tokens = [];
  store = [];
}

abbrev clock : Clock
clock = record {
  at_limit = 1500000;
  at_action = 1500000;
  at_nullifier = 1500000;
  at_epoch = 1500000;
  at_token = 1500000;
  at_deposit = 1500000;
}

abbrev request : PhantomDepositRequest
request = record {
  envelope = envelope;
  gate = record { mode = cap; nullifier = hex_id; token = cap_token; quota_token = some quota };
}

abbrev deposit_in : (Text → ApiResult Bool) → ApiResult (Unit {0}) × Mailbox
deposit_in blocked =
    Mailbox.deposit tagged (λ s. text "aa") tagged (λ s. hex_id) blocked clock request mailbox

request_accepted : (deposit_in (λ t. ok false)).0 ≡ ok tt
unfolding Mailbox.deposit rate_limit_hit validate_envelope verify_and_consume_nullifier
    verify_ticket_signature generate_quota_token consume lookup compute_nullifier constant_time_eq
    text text_eq decimal verify_and_consume_cap_token token_parts take_token token_text parse_u64
    split try_deposit sum_queues all
request_accepted = refl

request_blocked : (deposit_in (λ t. ok true)).0 ≡ err (forbidden "Deposit rejected.")
unfolding Mailbox.deposit rate_limit_hit validate_envelope lookup text text_eq all token_text
    decimal
request_blocked = refl

deposit_accepted_example :
    (validate_envelope envelope ≡ ok tt)
    × (◌≡◌ {A = ApiResult Bool} (ok false) (ok false))
    × QuotaPaid tagged
        (λ s. text "aa")
        tagged
        (λ s. hex_id)
        (λ t. ok false)
        clock
        request
        mailbox.nullifiers
    × (gate_answer tagged
          (λ s. text "aa")
          tagged
          (λ s. hex_id)
          (λ t. ok false)
          cap
          cap_token
          1500000
          mailbox.cap_tokens
          mailbox.pass_tokens
        ≡ ok tt)
    × ((try_deposit envelope 1500000 []).0 ≡ true)
    × ((deposit_in (λ t. ok false)).1.store ≡ (try_deposit envelope 1500000 []).1)
    × ((rate_limit_hit (text "phantom:deposit:global") 20 1000 1500000 mailbox.rate_limits).0
        ≡ false)
deposit_accepted_example =
    deposit_accepted tagged (λ s. text "aa") tagged (λ s. hex_id) (λ t. ok false) clock request
      mailbox request_accepted

deposit_refused_keeps_example : (deposit_in (λ t. ok true)).1.store ≡ []
deposit_refused_keeps_example =
    deposit_refused_keeps tagged (λ s. text "aa") tagged (λ s. hex_id) (λ t. ok true) clock request
      mailbox (λ h. cc (request_blocked, h))

abbrev two_answers : List (Option PhantomEnvelope)
two_answers = some envelope ∷ none ∷ []

two_frames :
    (poll 0 86400005
      (record { slots = hex_id ∷ []; want = 2 })
      (record mailbox { store = two_stored })).0
    ≡ ok two_answers
unfolding poll rate_limit_hit claim drop_expired lookup text text_eq
two_frames = refl

poll_answers_wanted_example : length two_answers ≡ min 2 max_want
poll_answers_wanted_example =
    poll_answers_wanted 0 86400005 (record { slots = hex_id ∷ []; want = 2 })
      (record mailbox { store = two_stored }) two_answers two_frames
