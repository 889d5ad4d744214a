-- ===== src/Phantom/Mailbox/Requests.antt =====
-- What a deposit checks and does to the dead-drop store, and what a poll answers.
use lqxp.Common.{
  ℕ, zero, suc, ◌+◌, ◌-◌, ◌/◌, ◌≡◌, refl, ◌≢◌, inl, inr, Bool, true, false, Option, none, some,
  List, [], ◌∷◌, ◌++◌, arith, Option-cases, length, take, length-append, length-take, Text, text,
  decimal, ApiResult, ok, text_Eq,
}
use Prim.Native.Nat.{min}
use lqxp.Core.Token.{Tokens}
use lqxp.Core.RateLimit.{rate_limit_hit}
use lqxp.Core.Once.{Consumed}
use lqxp.Core.Rln.{EpochQuotaToken, verify_and_consume_nullifier}
use lqxp.Core.Cap.{verify_and_consume_cap_token}
use lqxp.Phantom.PrivacyPass.{consume_deposit_token}
use lqxp.Phantom.Store.{PhantomEnvelope, DeadDropStore, try_deposit, claim}
use lqxp.Phantom.Mailbox.{
  Mailbox, Clock, PhantomDepositRequest, PhantomPollRequest, PhantomGateMode, pass, cap,
  validate_envelope, limited, on_nullifiers, on_cap_tokens, on_pass_tokens, try_store, open_gate,
  deposit, claim_all, pad, claims, poll, max_want,
}

module _ (rln_hmac cap_hmac pass_hmac sha256 : Text → Text)
    (is_blocked_tag : Text → ApiResult Bool) where
  gate_store :
      (mode : PhantomGateMode) (token : Text) (now : ℕ) (m : Mailbox)
      → (open_gate rln_hmac cap_hmac pass_hmac sha256 is_blocked_tag mode token now m).1.store
        ≡ m.store
  unfolding open_gate on_cap_tokens on_pass_tokens
  gate_store cap token now m = refl
  gate_store pass token now m = refl

  -- What the token store of a gate's mode answers to a token.
  pub gate_answer : PhantomGateMode → Text → ℕ → Tokens → Tokens → ApiResult (Unit {0})
  gate_answer cap token now cap_tokens pass_tokens =
      (verify_and_consume_cap_token cap_hmac token (text "phantom") now cap_tokens).0
  gate_answer pass token now cap_tokens pass_tokens =
      (consume_deposit_token pass_hmac token now pass_tokens).0

  -- The quota token that came with the request pays for a deposit on the day.
  pub QuotaPaid : Clock → PhantomDepositRequest → Consumed → Type 0
  QuotaPaid clock req nullifiers =
      (quota : EpochQuotaToken) × (req.gate.quota_token ≡ some quota)
      × ((verify_and_consume_nullifier rln_hmac sha256 quota req.gate.nullifier
            (text "phantom_deposit:" ++ decimal (clock.at_action / 86400000)) clock.at_nullifier
            clock.at_epoch nullifiers).0
          ≡ ok tt)

  gate_passed :
      (mode : PhantomGateMode) (clock : Clock) (req : PhantomDepositRequest) (m : Mailbox)
      → req.gate.mode ≡ mode
      → (deposit rln_hmac cap_hmac pass_hmac sha256 is_blocked_tag clock req m).0 ≡ ok tt
      → gate_answer mode req.gate.token clock.at_token m.cap_tokens m.pass_tokens ≡ ok tt
  unfolding deposit limited on_nullifiers try_store open_gate on_cap_tokens on_pass_tokens
      gate_answer
  gate_passed cap clock req m e h = ground (arith, h, e)
  gate_passed pass clock req m e h = ground (arith, h, e)

  quota_paid :
      (clock : Clock) (req : PhantomDepositRequest) (m : Mailbox)
      → (deposit rln_hmac cap_hmac pass_hmac sha256 is_blocked_tag clock req m).0 ≡ ok tt
      → QuotaPaid clock req m.nullifiers
  unfolding deposit limited on_nullifiers try_store QuotaPaid
  quota_paid clock req m h = elim (Option-cases req.gate.quota_token) [
    | inl e ↦ ground (arith, h, e)
    | inr (quota, e) ↦ (quota, e, ground (arith, h, e))
  ]

  -- A deposit that is accepted is within the rate limit and has a valid envelope, whose pair of
  -- recipient and sender is not blocked, a quota token whose use for the day is accepted, and a gate
  -- token that the gate of its mode accepts; and the store is then what `try_deposit` left on
  -- accepting it.
  pub deposit_accepted :
      (clock : Clock) (req : PhantomDepositRequest) (m : Mailbox)
      → (deposit rln_hmac cap_hmac pass_hmac sha256 is_blocked_tag clock req m).0 ≡ ok tt
      → (validate_envelope req.envelope ≡ ok tt)
        × (is_blocked_tag (sha256 (req.envelope.recipient_fp ++ req.envelope.sender_hint))
            ≡ ok false)
        × QuotaPaid clock req m.nullifiers
        × (gate_answer req.gate.mode req.gate.token clock.at_token m.cap_tokens m.pass_tokens
            ≡ ok tt)
        × ((try_deposit req.envelope clock.at_deposit m.store).0 ≡ true)
        × ((deposit rln_hmac cap_hmac pass_hmac sha256 is_blocked_tag clock req m).1.store
            ≡ (try_deposit req.envelope clock.at_deposit m.store).1)
        × ((rate_limit_hit (text "phantom:deposit:global") 20 1000 clock.at_limit m.rate_limits).0
            ≡ false)
  unfolding deposit limited on_nullifiers try_store
  deposit_accepted clock req m h = (
    ground arith,
    ground arith,
    quota_paid clock req m h,
    gate_passed req.gate.mode clock req m refl h,
    ground (arith, gate_store req.gate.mode req.gate.token clock.at_token),
    ground (arith, gate_store req.gate.mode req.gate.token clock.at_token),
    ground arith,
  )

  -- A deposit that is not accepted leaves the store as it was.
  pub deposit_refused_keeps :
      (clock : Clock) (req : PhantomDepositRequest) (m : Mailbox)
      → (deposit rln_hmac cap_hmac pass_hmac sha256 is_blocked_tag clock req m).0 ≢ ok tt
      → (deposit rln_hmac cap_hmac pass_hmac sha256 is_blocked_tag clock req m).1.store ≡ m.store
  unfolding deposit limited on_nullifiers try_store try_deposit
  deposit_refused_keeps clock req m h =
      ground (arith, h, gate_store req.gate.mode req.gate.token clock.at_token)

length-pad :
    (missing : ℕ) (frames : List (Option PhantomEnvelope))
    → length (pad missing frames) ≡ length frames + missing
unfolding pad
length-pad zero frames = omega arith
length-pad (suc missing) frames =
    omega (arith, length-pad missing (frames ++ none ∷ []), length-append frames (none ∷ []))

length-claim_all :
    (slots : List Text) (now : ℕ) (store : DeadDropStore)
    → length (claim_all slots now store).0 ≡ length slots
unfolding claim_all
length-claim_all [] now store = refl
length-claim_all (slot ∷ slots) now store =
    omega (arith, length-claim_all slots now (claim slot now store).1)

-- A poll that is answered is answered with as many frames as it wanted, eight at most, however many
-- slots it named and whatever they hold.
pub poll_answers_wanted :
    (at_limit now : ℕ) (req : PhantomPollRequest) (m : Mailbox)
    (frames : List (Option PhantomEnvelope))
    → (poll at_limit now req m).0 ≡ ok frames
    → length frames ≡ min req.want max_want
unfolding poll limited claims
poll_answers_wanted at_limit now req m frames h = ground (
  arith,
  length-pad (min req.want 8 - length (claim_all (take (min req.want 8) req.slots) now m.store).0)
      (claim_all (take (min req.want 8) req.slots) now m.store).0,
  length-claim_all (take (min req.want 8) req.slots) now m.store,
  length-take (min req.want 8) req.slots,
)
