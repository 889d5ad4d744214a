-- ===== src/Phantom/PrivacyPass/Redeem.antt =====
-- `redeem_pass_token` of services/privacy_pass.rs, of which the verification of a response is a seam.
use lqxp.Common.{ℕ, ◌≡◌, ◌≢◌, arith, Text, ok, text_Eq}
use lqxp.Phantom.PrivacyPass.{
  PassStores, redeem_pass_token, take_nonce, release_if_refused, verify_amortized_batch_response,
}

module _ (hmac : Text → Text) where
  -- A redemption answers no token and leaves the deposit tokens as they were.
  redeem_pass_token_lem :
      (token_response nonce token_id token : Text) (now : ℕ) (s : PassStores)
      → ((redeem_pass_token hmac token_response nonce token_id now s).0 ≢ ok token)
        × ((redeem_pass_token hmac token_response nonce token_id now s).1.tokens ≡ s.tokens)
  unfolding redeem_pass_token take_nonce release_if_refused verify_amortized_batch_response
  redeem_pass_token_lem token_response nonce token_id token now s =
      ((λ h. ground (arith, h)), ground arith)
