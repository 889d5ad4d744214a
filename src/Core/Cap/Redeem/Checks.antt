-- ===== src/Core/Cap/Redeem/Checks.antt =====
-- What a redemption of core/cap.rs has checked when it answers a token.
use lqxp.Common.{
  ℕ, ◌+◌, ◌≤◌, ◌≡◌, refl, sym, ◌≢◌, true, Option, none, some, List, arith, ltb, eq_law, retain,
  lookup, lookup_self, Text, ApiError, ApiResult, ok, err, panicked, text_Eq,
}
use mathlib.Core.Path.{subst}
use lqxp.Core.ConstantTime.{constant_time_eq_iff}
use lqxp.Core.Once.{Consumed}
use lqxp.Core.Rln.{verify_and_consume_nullifier}
use lqxp.Core.Vdf.{VdfDeps, verify_and_consume_vdf}
use lqxp.Core.Cap.{mint_cap_token, cap_token_ttl_ms, token_signature}
use lqxp.Core.Pqc.{verify_and_decapsulate_pqc}
use lqxp.Core.Pqc.Served.{KeyServed, key_parts}
use lqxp.Core.Token.{token_text}
use lqxp.Core.Cap.Redeem.{
  CapStores, CapInstrumentation, CapRedeemRequest, RedeemClock, canonical, instrumentation_ok,
  use_nullifier, before_proof, use_pqc_key, mint, after_proof, finish, check_delay,
  redeem_cap_challenge,
}

-- Nothing in the client's report speaks against it.
pub IsHuman : Option CapInstrumentation → Type 0
IsHuman report =
    (instr : CapInstrumentation)
    → report ≡ some instr
    → (instr.webdriver ≢ some true) × ((t : ℕ) → instr.interaction_time_ms ≡ some t → 250 ≤ t)

instrumentation_ok-IsHuman :
    (report : Option CapInstrumentation) → instrumentation_ok report ≡ ok tt → IsHuman report
unfolding instrumentation_ok IsHuman
instrumentation_ok-IsHuman report h instr e =
    ((λ k. ground (arith, h, e, k)), λ t k. ground (arith, h, e, k))

module _ (cap_hmac rln_hmac sha256 : Text → Text) (deps : VdfDeps) (DecapsulationKey : Type 0)
    (decapsulate_slice : DecapsulationKey → List ℕ → Option (List ℕ)) where
  before_parts :
      (clock : RedeemClock) (req : CapRedeemRequest) (s : CapStores DecapsulationKey)
      → (before_proof cap_hmac rln_hmac sha256 deps DecapsulationKey decapsulate_slice clock req
          s).0
        ≡ ok tt
      → (req.challenge_id ≡ req.challenge.challenge_id)
        × (clock.at_request ≤ req.challenge.expires_at)
        × (req.challenge.scope ≡ req.scope)
        × (req.challenge.signature ≡ cap_hmac (canonical req.challenge))
        × ((verify_and_consume_nullifier rln_hmac sha256 req.challenge.quota_token req.nullifier
              req.scope clock.at_nullifier clock.at_epoch s.nullifiers).0
            ≡ ok tt)
        × ((before_proof cap_hmac rln_hmac sha256 deps DecapsulationKey decapsulate_slice clock req
              s).1.vdf_used
            ≡ s.vdf_used)
        × ((before_proof cap_hmac rln_hmac sha256 deps DecapsulationKey decapsulate_slice clock req
              s).1.keys
            ≡ s.keys)
  unfolding before_proof use_nullifier
  before_parts clock req s h = (
    ground (arith, h, eq_law req.challenge_id req.challenge.challenge_id),
    ground (arith, h),
    ground (arith, h, eq_law req.challenge.scope req.scope),
    ground (
      arith,
      h,
      constant_time_eq_iff (cap_hmac (canonical req.challenge)) req.challenge.signature,
    ),
    ground (arith, h),
    ground (arith, h),
    ground (arith, h),
  )

  answered :
      (r : ApiResult (List ℕ))
      → ((e : ApiError) → r ≢ err e) × (r ≢ panicked)
      → (secret : List ℕ) × (r ≡ ok secret)
  answered (ok secret) h = (secret, refl)
  answered (err e) h = absurd (h.0 e refl)
  answered panicked h = absurd (h.1 refl)

  after_parts :
      (token_id token : Text) (clock : RedeemClock) (req : CapRedeemRequest)
      (s s' : CapStores DecapsulationKey)
      → after_proof cap_hmac rln_hmac sha256 deps DecapsulationKey decapsulate_slice token_id clock
          req s
        ≡ (ok token, s')
      → (instrumentation_ok req.instrumentation ≡ ok tt)
        × (lookup token s'.tokens ≡ some (clock.at_request + cap_token_ttl_ms))
        × ((secret : List ℕ) × ((verify_and_decapsulate_pqc DecapsulationKey decapsulate_slice
                req.pqc_ciphertext clock.at_key s.keys).0
              ≡ ok secret))
        × (s'.keys
            ≡ (verify_and_decapsulate_pqc DecapsulationKey decapsulate_slice req.pqc_ciphertext
                clock.at_key s.keys).1)
  unfolding after_proof use_pqc_key mint mint_cap_token
  after_parts token_id token clock req s s' h =
      let expires = clock.at_request + cap_token_ttl_ms in
      let minted =
        token_text "cap" token_id expires (token_signature cap_hmac token_id req.scope expires) in
      let kept = retain (λ _ exp. ltb clock.at_request exp) s.tokens in
      (
        ground (arith, h),
        ground (arith, h, lookup_self minted expires kept),
        answered _ (ground (arith, h)),
        ground (arith, h),
      )

  finish_parts :
      (v : Option (ApiResult (Unit {0}) × Consumed)) (token_id token : Text) (clock : RedeemClock)
      (req : CapRedeemRequest) (s s' : CapStores DecapsulationKey)
      → finish cap_hmac rln_hmac sha256 deps DecapsulationKey decapsulate_slice v token_id clock req
          s
        ≡ some (ok token, s')
      → (used : Consumed) × (v ≡ some (ok tt, used))
        × (after_proof cap_hmac rln_hmac sha256 deps DecapsulationKey decapsulate_slice token_id
              clock req
              (record s { vdf_used = used })
            ≡ (ok token, s'))
  unfolding finish
  finish_parts none token_id token clock req s s' h = ground (arith, h)
  finish_parts (some (err e, used)) token_id token clock req s s' h = ground (arith, h)
  finish_parts (some (panicked, used)) token_id token clock req s s' h = ground (arith, h)
  finish_parts (some (ok _, used)) token_id token clock req s s' h = (used, refl, ground (arith, h))

  delay_parts :
      (b : ApiResult (Unit {0}) × CapStores DecapsulationKey) (fuel : ℕ) (token_id token : Text)
      (clock : RedeemClock) (req : CapRedeemRequest) (s' : CapStores DecapsulationKey)
      → check_delay cap_hmac rln_hmac sha256 deps DecapsulationKey decapsulate_slice b fuel token_id
          clock req
        ≡ some (ok token, s')
      → (used : Consumed) × (b.0 ≡ ok tt)
        × (verify_and_consume_vdf deps fuel req.challenge.vdf req.vdf_proof none clock.at_proof
              clock.at_used b.1.vdf_used
            ≡ some (ok tt, used))
        × (after_proof cap_hmac rln_hmac sha256 deps DecapsulationKey decapsulate_slice token_id
              clock req
              (record b.1 { vdf_used = used })
            ≡ (ok token, s'))
  unfolding check_delay
  delay_parts (err e, s) fuel token_id token clock req s' h = ground (arith, h)
  delay_parts (panicked, s) fuel token_id token clock req s' h = ground (arith, h)
  delay_parts (ok _, s) fuel token_id token clock req s' h =
      let (used, accepted, rest) = finish_parts _ token_id token clock req s s' h in
      (used, refl, accepted, rest)

  -- A redemption that answers a token has a challenge whose id and scope are the request's, whose
  -- expiry has not passed and whose signature is the server's, a nullifier that the quota token
  -- pays for, an accepted delay proof, and a ciphertext that opens with a stored key, which has not
  -- expired and is gone afterwards; the client's report, if any, neither tells of an automated
  -- browser nor of an interaction under 250 ms; and the token is in the store, for five minutes from
  -- the request.
  pub redeem_checks :
      (fuel : ℕ) (token_id token : Text) (clock : RedeemClock) (req : CapRedeemRequest)
      (s s' : CapStores DecapsulationKey)
      → redeem_cap_challenge cap_hmac rln_hmac sha256 deps DecapsulationKey decapsulate_slice fuel
          token_id clock req s
        ≡ some (ok token, s')
      → (req.challenge_id ≡ req.challenge.challenge_id)
        × (clock.at_request ≤ req.challenge.expires_at)
        × (req.challenge.scope ≡ req.scope)
        × (req.challenge.signature ≡ cap_hmac (canonical req.challenge))
        × ((verify_and_consume_nullifier rln_hmac sha256 req.challenge.quota_token req.nullifier
              req.scope clock.at_nullifier clock.at_epoch s.nullifiers).0
            ≡ ok tt)
        × ((used : Consumed) × (verify_and_consume_vdf deps fuel req.challenge.vdf req.vdf_proof
                none clock.at_proof clock.at_used s.vdf_used
              ≡ some (ok tt, used)))
        × KeyServed DecapsulationKey decapsulate_slice req.pqc_ciphertext clock.at_key s.keys
            s'.keys
        × IsHuman req.instrumentation
        × (lookup token s'.tokens ≡ some (clock.at_request + cap_token_ttl_ms))
  unfolding redeem_cap_challenge
  redeem_checks fuel token_id token clock req s s' h =
      let (used, before, proof, after_) = delay_parts _ fuel token_id token clock req s' h in
      let (id, live, scope, signed, paid, same, keys) = before_parts clock req s before in
      let b =
        (before_proof cap_hmac rln_hmac sha256 deps DecapsulationKey decapsulate_slice clock req
          s).1 in
      let (human, stored, (secret, served), left) =
        after_parts token_id token clock req _ s' after_ in
      (
        id,
        live,
        scope,
        signed,
        paid,
        (
          used,
          subst
              (λ map.
                verify_and_consume_vdf deps fuel req.challenge.vdf req.vdf_proof none clock.at_proof
                  clock.at_used map
                ≡ some (ok tt, used))
              same proof,
        ),
        subst
            (λ k.
              KeyServed DecapsulationKey decapsulate_slice req.pqc_ciphertext clock.at_key k
                s'.keys)
            keys
            (subst
              (λ k.
                KeyServed DecapsulationKey decapsulate_slice req.pqc_ciphertext clock.at_key b.keys
                  k)
              (sym left)
              (key_parts DecapsulationKey decapsulate_slice req.pqc_ciphertext clock.at_key _ secret
                served)),
        instrumentation_ok-IsHuman req.instrumentation human,
        stored,
      )
