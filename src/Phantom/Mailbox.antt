-- ===== src/Phantom/Mailbox.antt =====
-- The two requests of services/phantom.rs that use the dead-drop store: `deposit` and `poll`. The
-- keyed hashes, SHA-256 (in hex) and the table of blocked tags are parameters; each reading of the
-- clock is an argument.
pub mod Requests
use lqxp.Common.{
  ℕ, zero, suc, ◌+◌, ◌-◌, ◌/◌, ◌<◌, Bool, ◌&&◌, ◌||◌, not, Option, none, List, [], ◌∷◌, ◌++◌, map,
  ltb, nat_beq, if◌then◌else◌, length, is_empty, take, drop, all, contains, Text, text,
  is_ascii_hexdigit, decimal, ApiResult, bad_request, forbidden, too_many_requests, ok_or, Exec,
  after, lift, reject_if, ok, err, ◌>>=◌, ◌>>◌, text_Eq,
}
use Prim.Native.Nat.{min}
use lqxp.Core.RateLimit.{Buckets, rate_limit_hit}
use lqxp.Core.Once.{Consumed}
use lqxp.Core.Rln.{EpochQuotaToken, verify_and_consume_nullifier}
use lqxp.Core.Token.{Tokens}
use lqxp.Core.Cap.{verify_and_consume_cap_token}
use lqxp.Phantom.Store.{PhantomEnvelope, DeadDropStore, try_deposit, claim}
use lqxp.Phantom.PrivacyPass.{consume_deposit_token}

pub data PhantomGateMode : Type 0 where
  pass : PhantomGateMode
  cap : PhantomGateMode

pub record PhantomGate : Type 0 where
  pub mode : PhantomGateMode
  pub nullifier : Text
  pub token : Text
  pub quota_token : Option EpochQuotaToken

pub record PhantomDepositRequest : Type 0 where
  pub envelope : PhantomEnvelope
  pub gate : PhantomGate

pub record PhantomPollRequest : Type 0 where
  pub slots : List Text
  pub want : ℕ

-- The stores of the process that the requests touch.
pub record Mailbox : Type 0 where
  pub rate_limits : Buckets
  pub nullifiers : Consumed
  pub cap_tokens : Tokens
  pub pass_tokens : Tokens
  pub store : DeadDropStore

-- The readings of the clock, in their order: the rate limit's, the action's day, the two of the
-- nullifier's check, the token's, the deposit's.
pub record Clock : Type 0 where
  pub at_limit : ℕ
  pub at_action : ℕ
  pub at_nullifier : ℕ
  pub at_epoch : ℕ
  pub at_token : ℕ
  pub at_deposit : ℕ

abbrev pub is_hex64 : Text → Bool
is_hex64 value = nat_beq (length value) 64 && all is_ascii_hexdigit value

-- `VALID_BUCKETS.contains`
abbrev pub is_valid_bucket : ℕ → Bool
is_valid_bucket bucket = nat_beq bucket 4096 || (nat_beq bucket 16384 || nat_beq bucket 65536)

abbrev pub max_ct_len : ℕ
max_ct_len = 98304

abbrev pub max_gate_token_len : ℕ
max_gate_token_len = 4096

unfoldable pub validate_envelope : PhantomEnvelope → ApiResult (Unit {0})
validate_envelope e =
    if not (nat_beq e.pv 1)
    then err (bad_request "Unsupported envelope version.")
    else if not (is_hex64 e.slot_id)
        || (not (is_hex64 e.recipient_fp) || not (is_hex64 e.sender_hint))
    then err (bad_request "Malformed envelope identifier.")
    else if not (is_valid_bucket e.bucket)
    then err (bad_request "Invalid envelope bucket.")
    else if is_empty e.ct || ltb max_ct_len (length e.ct)
    then err (bad_request "Envelope ciphertext out of bounds.")
    else ok tt

-- A call that works on one of the stores.
limited : Text → ℕ → ℕ → ℕ → Exec Mailbox Bool
limited key limit window_ms now m =
    let (over, buckets) = rate_limit_hit key limit window_ms now m.rate_limits in
    (ok over, record m { rate_limits = buckets })

on_nullifiers : Exec Consumed (Unit {0}) → Exec Mailbox (Unit {0})
on_nullifiers f m = let (r, map) = f m.nullifiers in (r, record m { nullifiers = map })

on_cap_tokens : Exec Tokens (Unit {0}) → Exec Mailbox (Unit {0})
on_cap_tokens f m = let (r, map) = f m.cap_tokens in (r, record m { cap_tokens = map })

on_pass_tokens : Exec Tokens (Unit {0}) → Exec Mailbox (Unit {0})
on_pass_tokens f m = let (r, map) = f m.pass_tokens in (r, record m { pass_tokens = map })

try_store : PhantomEnvelope → ℕ → Exec Mailbox Bool
try_store envelope now m =
    let (stored, store) = try_deposit envelope now m.store in
    (ok stored, record m { store = store })

module _ (rln_hmac cap_hmac pass_hmac sha256 : Text → Text)
    (is_blocked_tag : Text → ApiResult Bool) where
  abbrev pub block_tag : Text → Text → Text
  block_tag recipient_fp sender_hint = sha256 (recipient_fp ++ sender_hint)

  open_gate : PhantomGateMode → Text → ℕ → Exec Mailbox (Unit {0})
  unfolding on_cap_tokens on_pass_tokens
  open_gate cap token now =
      on_cap_tokens (verify_and_consume_cap_token cap_hmac token (text "phantom") now)
  open_gate pass token now = on_pass_tokens (consume_deposit_token pass_hmac token now)

  unfoldable pub deposit : Clock → PhantomDepositRequest → Exec Mailbox (Unit {0})
  unfolding limited open_gate on_nullifiers try_store
  deposit clock req = do
    over ← limited (text "phantom:deposit:global") 20 1000 clock.at_limit
    reject_if over (too_many_requests "Deposit rate limit exceeded.")
    lift (validate_envelope req.envelope)
    reject_if (not (is_empty req.gate.nullifier) && not (is_hex64 req.gate.nullifier))
        (bad_request "Malformed gate nullifier.")
    reject_if (ltb max_gate_token_len (length req.gate.token))
        (bad_request "Gate token out of bounds.")
    blocked ← lift (is_blocked_tag (block_tag req.envelope.recipient_fp req.envelope.sender_hint))
    reject_if blocked (forbidden "Deposit rejected.")
    quota_token ← lift (ok_or req.gate.quota_token (bad_request "Missing anonymous quota token."))
    on_nullifiers (
        verify_and_consume_nullifier rln_hmac sha256 quota_token req.gate.nullifier
          (text "phantom_deposit:" ++ decimal (clock.at_action / 86400000)) clock.at_nullifier
          clock.at_epoch)
    open_gate req.gate.mode req.gate.token clock.at_token
    stored ← try_store req.envelope clock.at_deposit
    reject_if (not stored) (too_many_requests "Dead-drop memory budget reached.")

abbrev pub max_slots_per_poll : ℕ
max_slots_per_poll = 64

abbrev pub max_want : ℕ
max_want = 8

-- The claims of one poll, one after the other.
claim_all : List Text → ℕ → DeadDropStore → List (Option PhantomEnvelope) × DeadDropStore
claim_all [] now store = ([], store)
claim_all (slot ∷ slots) now store =
    let (frame, left) = claim slot now store in
    let (frames, rest) = claim_all slots now left in (frame ∷ frames, rest)

-- `while frames.len() < want { frames.push(None); }`
pad : ℕ → List (Option PhantomEnvelope) → List (Option PhantomEnvelope)
pad zero frames = frames
pad (suc missing) frames = pad missing (frames ++ none ∷ [])

claims : List Text → ℕ → ℕ → Exec Mailbox (List (Option PhantomEnvelope))
unfolding claim_all pad
claims slots want now m =
    let (frames, store) = claim_all (take want slots) now m.store in
    (ok (pad (want - length frames) frames), record m { store = store })

unfoldable pub poll : ℕ → ℕ → PhantomPollRequest → Exec Mailbox (List (Option PhantomEnvelope))
unfolding limited claims
poll at_limit now req = do
  reject_if (ltb max_slots_per_poll (length req.slots)) (bad_request "Too many slots requested.")
  over ← limited (text "phantom:poll:global") 20 1000 at_limit
  reject_if over (too_many_requests "Poll rate limit exceeded.")
  claims req.slots (min req.want max_want) now
