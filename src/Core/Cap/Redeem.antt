-- ===== src/Core/Cap/Redeem.antt =====
-- The challenge of core/cap.rs and its redemption, which joins the quota token, the delay proof and
-- the ephemeral key. What the parts call is passed on as parameters.
pub mod Checks
use lqxp.Common.{
  ℕ, ◌+◌, ◌-◌, ◌/◌, Bool, false, not, Option, none, some, List, ◌∷◌, ◌++◌, map, ltb, if◌then◌else◌,
  ◌==◌, unwrap_or, Text, text, decimal, ApiResult, bad_request, fail_if, Exec, lift, reject_if, ok,
  err, panicked, ◌>>=◌, ◌>>◌, text_Eq,
}
use lqxp.Core.ConstantTime.{constant_time_eq}
use lqxp.Core.Once.{Consumed}
use lqxp.Core.Rln.{EpochQuotaToken, generate_quota_token, verify_and_consume_nullifier}
use lqxp.Core.Vdf.{VdfDeps, VdfChallenge, VdfProof, generate_vdf_challenge, verify_and_consume_vdf}
use lqxp.Core.Pqc.{
  PqcPublicKey, PqcCiphertext, ActiveKeys, issue_pqc_challenge, verify_and_decapsulate_pqc,
}
use lqxp.Core.Token.{Tokens}
use lqxp.Core.Cap.{mint_cap_token}

pub record CapChallenge : Type 0 where
  pub challenge_id : Text
  pub scope : Text
  pub issued_at : ℕ
  pub expires_at : ℕ
  pub vdf : VdfChallenge
  pub quota_token : EpochQuotaToken
  pub pqc_key : PqcPublicKey
  pub signature : Text

-- The fields that the server reads.
pub record CapInstrumentation : Type 0 where
  pub interaction_time_ms : Option ℕ
  pub webdriver : Option Bool

pub record CapRedeemRequest : Type 0 where
  pub challenge_id : Text
  pub scope : Text
  pub challenge : CapChallenge
  pub vdf_proof : VdfProof
  pub nullifier : Text
  pub pqc_ciphertext : PqcCiphertext
  pub instrumentation : Option CapInstrumentation

abbrev pub cap_challenge_ttl_ms : ℕ
cap_challenge_ttl_ms = 180000

abbrev pub min_human_interaction_ms : ℕ
min_human_interaction_ms = 250

-- The stores of the process that a redemption touches.
pub record CapStores (DecapsulationKey : Type 0) : Type 0 where
  pub nullifiers : Consumed
  pub vdf_used : Consumed
  pub keys : ActiveKeys DecapsulationKey
  pub tokens : Tokens

-- The readings of the clock: the request's, the nullifier's two, the proof's two, the key's.
pub record RedeemClock : Type 0 where
  pub at_request : ℕ
  pub at_nullifier : ℕ
  pub at_epoch : ℕ
  pub at_proof : ℕ
  pub at_used : ℕ
  pub at_key : ℕ

-- What the client reports of itself.
unfoldable pub instrumentation_ok : Option CapInstrumentation → ApiResult (Unit {0})
instrumentation_ok none = ok tt
instrumentation_ok (some instr) =
    if unwrap_or instr.webdriver false
    then err (bad_request "Automated browser execution detected.")
    else fail_if
        (ltb (unwrap_or instr.interaction_time_ms min_human_interaction_ms)
          min_human_interaction_ms)
        (bad_request "Interaction time below human threshold.")

abbrev pub canonical_data : Text → Text → ℕ → ℕ → Text → Text → Text
canonical_data challenge_id scope issued_at expires_at vdf_signature key_id =
    challenge_id
    ++ b':'
      ∷ (scope
          ++ b':'
            ∷ (decimal issued_at
                ++ b':' ∷ (decimal expires_at ++ b':' ∷ (vdf_signature ++ b':' ∷ key_id))))

-- The text of a challenge that its signature is for.
abbrev pub canonical : CapChallenge → Text
canonical c =
    canonical_data c.challenge_id c.scope c.issued_at c.expires_at c.vdf.signature c.pqc_key.key_id

module _ (cap_hmac rln_hmac sha256 : Text → Text) (deps : VdfDeps) (DecapsulationKey : Type 0)
    (decapsulate_slice : DecapsulationKey → List ℕ → Option (List ℕ)) where
  abbrev pub Stores : Type 0
  Stores = CapStores DecapsulationKey

  -- The random parts are arguments: the id, the delay's salt, the nonce, and the key pair with its
  -- id. The readings of the clock come in their order.
  unfoldable pub generate_cap_challenge :
      Text
      → Option Text
      → Text
      → Text
      → Text
      → Text
      → List ℕ
      → DecapsulationKey
      → ℕ
      → ℕ
      → ℕ
      → ℕ
      → ℕ
      → Stores
      → CapChallenge × Stores
  unfolding generate_quota_token generate_vdf_challenge
  generate_cap_challenge scope target challenge_id salt nonce key_id ek dk now at_vdf at_quota
        at_issue at_sweep s =
      let expires_at = now + cap_challenge_ttl_ms in
      let vdf = generate_vdf_challenge deps at_vdf salt target none in
      let (pqc_key, keys) =
        issue_pqc_challenge DecapsulationKey key_id ek dk at_issue at_sweep s.keys in
      (
        record {
          challenge_id = challenge_id;
          scope = scope;
          issued_at = now;
          expires_at = expires_at;
          vdf = vdf;
          quota_token = generate_quota_token rln_hmac sha256 at_quota nonce;
          pqc_key = pqc_key;
          signature =
              cap_hmac
                (canonical_data challenge_id scope now expires_at vdf.signature pqc_key.key_id);
        },
        record s { keys = keys },
      )

  use_nullifier : RedeemClock → CapRedeemRequest → Exec Stores (Unit {0})
  use_nullifier clock req s =
      let (r, map) =
        verify_and_consume_nullifier rln_hmac sha256 req.challenge.quota_token req.nullifier
          req.scope clock.at_nullifier clock.at_epoch s.nullifiers in
      (r, record s { nullifiers = map })

  before_proof : RedeemClock → CapRedeemRequest → Exec Stores (Unit {0})
  unfolding constant_time_eq use_nullifier
  before_proof clock req = do
    reject_if (not (req.challenge_id == req.challenge.challenge_id))
        (bad_request "CAPTCHA challenge ID mismatch.")
    reject_if (ltb req.challenge.expires_at clock.at_request)
        (bad_request "CAPTCHA challenge expired.")
    reject_if (not (req.challenge.scope == req.scope))
        (bad_request "CAPTCHA challenge scope mismatch.")
    reject_if (not (constant_time_eq (cap_hmac (canonical req.challenge)) req.challenge.signature))
        (bad_request "Invalid CAPTCHA challenge signature.")
    use_nullifier clock req

  use_pqc_key : RedeemClock → CapRedeemRequest → Exec Stores (List ℕ)
  use_pqc_key clock req s =
      let (r, keys) =
        verify_and_decapsulate_pqc DecapsulationKey decapsulate_slice req.pqc_ciphertext
          clock.at_key s.keys in
      (r, record s { keys = keys })

  mint : Text → CapRedeemRequest → ℕ → Exec Stores Text
  unfolding mint_cap_token
  mint token_id req now s =
      let (r, tokens) = mint_cap_token cap_hmac token_id req.scope now s.tokens in
      (r, record s { tokens = tokens })

  after_proof : Text → RedeemClock → CapRedeemRequest → Exec Stores Text
  unfolding use_pqc_key instrumentation_ok mint
  after_proof token_id clock req = do
    _ ← use_pqc_key clock req
    lift (instrumentation_ok req.instrumentation)
    mint token_id req clock.at_request

  finish :
      Option (ApiResult (Unit {0}) × Consumed)
      → Text
      → RedeemClock
      → CapRedeemRequest
      → Stores
      → Option (ApiResult Text × Stores)
  unfolding after_proof
  finish none token_id clock req s = none
  finish (some (ok _, used)) token_id clock req s =
      some (after_proof token_id clock req (record s { vdf_used = used }))
  finish (some (err e, used)) token_id clock req s = some (err e, record s { vdf_used = used })
  finish (some (panicked, used)) token_id clock req s =
      some (panicked, record s { vdf_used = used })

  check_delay :
      ApiResult (Unit {0}) × Stores
      → ℕ
      → Text
      → RedeemClock
      → CapRedeemRequest
      → Option (ApiResult Text × Stores)
  unfolding finish
  check_delay (ok _, s) fuel token_id clock req =
      finish
        (verify_and_consume_vdf deps fuel req.challenge.vdf req.vdf_proof none clock.at_proof
          clock.at_used s.vdf_used)
        token_id clock req s
  check_delay (err e, s) fuel token_id clock req = some (err e, s)
  check_delay (panicked, s) fuel token_id clock req = some (panicked, s)

  -- `none` where the search for the proof's prime is out of fuel.
  unfoldable pub redeem_cap_challenge :
      ℕ → Text → RedeemClock → CapRedeemRequest → Stores → Option (ApiResult Text × Stores)
  unfolding before_proof check_delay
  redeem_cap_challenge fuel token_id clock req s =
      check_delay (before_proof clock req s) fuel token_id clock req
