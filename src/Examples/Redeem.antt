-- ===== src/Examples/Redeem.antt =====
-- A redemption of a solved challenge, with small stand-ins for the hashes and for modular powers.
use lqxp.Common.{
  ℕ, ◌+◌, ◌≤◌, ◌≡◌, refl, false, Option, none, some, List, [], ◌∷◌, retain, lookup, remove, insert,
  Text, text, text_eq, decimal, ok, text_Eq,
}
use lqxp.Core.ConstantTime.{constant_time_eq}
use lqxp.Core.Once.{Consumed, consume}
use lqxp.Core.Rln.{
  generate_quota_token, compute_nullifier, verify_ticket_signature, verify_and_consume_nullifier,
}
use lqxp.Core.Vdf.{
  generate_vdf_challenge, verify_signature, verify_vdf, hash_to_prime, is_probable_prime,
  trial_division, passes_bases, split_twos, is_witness, proof_equation, signed_content,
  hash_to_element, hash_target, verify_and_consume_vdf,
}
use lqxp.Core.Hex.{hex_encode, hex_decode, to_digit}
use lqxp.Core.Pqc.{issue_pqc_challenge, verify_and_decapsulate_pqc}
use lqxp.Core.Token.{token_text}
use lqxp.Core.Cap.{mint_cap_token, cap_token_ttl_ms, token_signature}
use lqxp.Core.Cap.Redeem.{
  CapChallenge, CapRedeemRequest, CapStores, RedeemClock, canonical, instrumentation_ok,
  generate_cap_challenge, redeem_cap_challenge,
}
use lqxp.Core.Pqc.Served.{KeyServed}
use lqxp.Core.Cap.Redeem.Checks.{IsHuman, redeem_checks}
use lqxp.Examples.Vdf.{small_deps, proof}

abbrev tagged : Text → Text
tagged s = 104 ∷ s

abbrev decapsulates : Text → List ℕ → Option (List ℕ)
decapsulates dk ct_bytes = some ct_bytes

abbrev empty_stores : CapStores Text
empty_stores = record { nullifiers = []; vdf_used = []; keys = []; tokens = [] }

abbrev issued : CapChallenge × CapStores Text
issued =
    generate_cap_challenge tagged tagged (λ s. s) small_deps Text decapsulates (text "post") none
      (text "id") (text "s") (text "ff") (text "k") [] (text "secret") 0 0 0 0 0 empty_stores

abbrev request : CapRedeemRequest
request = record {
  challenge_id = text "id";
  scope = text "post";
  challenge = issued.0;
  vdf_proof = proof;
  nullifier =
      compute_nullifier tagged (λ s. s) issued.0.quota_token.ticket issued.0.quota_token.epoch
        (text "post");
  pqc_ciphertext = record { key_id = text "k"; ct_hex = [] };
  instrumentation = some (record { interaction_time_ms = some 900; webdriver = some false });
}

abbrev clock : RedeemClock
clock = record {
  at_request = 5;
  at_nullifier = 5;
  at_epoch = 5;
  at_proof = 5;
  at_used = 5;
  at_key = 5;
}

abbrev token : Text
token =
    token_text "cap" (text "ab") 300005 (token_signature tagged (text "ab") (text "post") 300005)

abbrev redeemed_stores : CapStores Text
redeemed_stores = record {
  nullifiers = (request.nullifier, 180005) ∷ [];
  vdf_used = (issued.0.vdf.signature, 180000) ∷ [];
  keys = [];
  tokens = (token, 300005) ∷ [];
}

redeemed :
    redeem_cap_challenge tagged tagged
      (λ s. s)
      small_deps
      Text
      decapsulates
      1
      (text "ab")
      clock
      request
      issued.1
    ≡ some (ok token, redeemed_stores)
unfolding redeem_cap_challenge generate_cap_challenge generate_quota_token compute_nullifier
    verify_ticket_signature verify_and_consume_nullifier verify_and_decapsulate_pqc
    issue_pqc_challenge instrumentation_ok mint_cap_token token_text hex_encode hex_decode to_digit
    verify_and_consume_vdf generate_vdf_challenge verify_vdf verify_signature constant_time_eq
    hash_to_prime is_probable_prime trial_division passes_bases split_twos is_witness proof_equation
    signed_content hash_to_element hash_target consume lookup insert remove retain text text_eq
    decimal
redeemed = refl

redeem_checks_example :
    (text "id" ≡ issued.0.challenge_id)
    × (5 ≤ issued.0.expires_at)
    × (issued.0.scope ≡ text "post")
    × (issued.0.signature ≡ tagged (canonical issued.0))
    × ((verify_and_consume_nullifier tagged
          (λ s. s)
          issued.0.quota_token
          request.nullifier
          (text "post")
          5
          5
          issued.1.nullifiers).0
        ≡ ok tt)
    × ((used : Consumed) × (verify_and_consume_vdf small_deps 1 issued.0.vdf proof none 5 5
            issued.1.vdf_used
          ≡ some (ok tt, used)))
    × KeyServed Text decapsulates request.pqc_ciphertext 5 issued.1.keys []
    × IsHuman request.instrumentation
    × (lookup token redeemed_stores.tokens ≡ some (5 + cap_token_ttl_ms))
redeem_checks_example =
    redeem_checks tagged tagged (λ s. s) small_deps Text decapsulates 1 (text "ab") token clock
      request issued.1 redeemed_stores redeemed
