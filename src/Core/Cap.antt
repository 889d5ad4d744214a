-- ===== src/Core/Cap.antt =====
-- The tokens of core/cap.rs: what a solved challenge is exchanged for, and its use. The keyed hash
-- (HMAC-SHA256, in hex) is a parameter.
pub mod Redeem
use lqxp.Common.{
  ℕ, ◌+◌, ◌-◌, ◌/◌, ◌^◌, ◌<◌, ◌≡◌, refl, ◌≢◌, not, none, List, [], ◌∷◌, ◌++◌, map, arith, ltb,
  eq_law, any, all, retain, lookup, insert, lookup-insert, lookup_self, lookup-retain-none, Text,
  text, decimal, parse_u64, parse_u64-decimal, bad_request, ok_or, Exec, after, lift, reject_if, ok,
  ◌>>=◌, ◌>>◌, text_Eq,
}
use lqxp.Core.ConstantTime.{constant_time_eq, constant_time_eq_iff}
use lqxp.Core.Token.{
  Tokens, token_parts, token_text, take_token, NoDot, token_parts-token_text, take_token-taken,
  take_token-missing, take_token-none, take_token-live,
}

abbrev pub cap_token_ttl_ms : ℕ
cap_token_ttl_ms = 300000

module _ (hmac : Text → Text) where
  -- `sign_data(&format!("{}:{}:{}", token_id, scope, expires))`
  abbrev pub token_signature : Text → Text → ℕ → Text
  token_signature token_id scope expires =
      hmac (token_id ++ b':' ∷ (scope ++ b':' ∷ decimal expires))

  -- The end of `redeem_cap_challenge`: expired tokens are dropped and the new one is stored. The
  -- token's id is 16 random bytes in hex.
  unfoldable pub mint_cap_token : Text → Text → ℕ → Exec Tokens Text
  mint_cap_token token_id scope now map =
      let expires = now + cap_token_ttl_ms in
      let token = token_text "cap" token_id expires (token_signature token_id scope expires) in
      (ok token, insert token expires (retain (λ _ exp. ltb now exp) map))

  unfoldable pub verify_and_consume_cap_token : Text → Text → ℕ → Exec Tokens (Unit {0})
  unfolding token_parts constant_time_eq
  verify_and_consume_cap_token token expected_scope now = do
    (token_id, expires_str, sig) ←
        lift (ok_or (token_parts "cap" token) (bad_request "Invalid CAPTCHA token format."))
    expires_at ←
        lift (ok_or (parse_u64 expires_str) (bad_request "Invalid CAPTCHA token timestamp."))
    reject_if (ltb expires_at now) (bad_request "CAPTCHA token expired. Please solve again.")
    reject_if (not (constant_time_eq (token_signature token_id expected_scope expires_at) sig))
        (bad_request "Invalid CAPTCHA token signature.")
    take_token token now (bad_request "CAPTCHA token has already been consumed or is invalid.")

  -- What may happen to the tokens: one is minted, or one is presented.
  pub data TokenCall : Type 0 where
    minting : Text → Text → ℕ → TokenCall
    presenting : Text → Text → ℕ → TokenCall

  pub after_call : TokenCall → Tokens → Tokens
  after_call (minting token_id scope now) map = (mint_cap_token token_id scope now map).1
  after_call (presenting token scope now) map = (verify_and_consume_cap_token token scope now map).1

  pub after_calls : List TokenCall → Tokens → Tokens
  unfolding after_call
  after_calls [] map = map
  after_calls (c ∷ calls) map = after_calls calls (after_call c map)

  -- No call mints the token again.
  abbrev pub MintsOthers : Text → List TokenCall → Type 0
  MintsOthers token [] = Unit
  MintsOthers token (minting token_id scope now ∷ calls) =
      (token
        ≢ token_text "cap" token_id (now + cap_token_ttl_ms)
            (token_signature token_id scope (now + cap_token_ttl_ms)))
      × MintsOthers token calls
  MintsOthers token (presenting other scope now ∷ calls) = MintsOthers token calls

  minting-none :
      (token token_id scope : Text) (now : ℕ) (map : Tokens)
      → token
        ≢ token_text "cap" token_id
            (now + cap_token_ttl_ms)
            (token_signature token_id scope (now + cap_token_ttl_ms))
      → lookup token map ≡ none
      → lookup token (mint_cap_token token_id scope now map).1 ≡ none
  unfolding mint_cap_token
  minting-none token token_id scope now map other h =
      let expires = now + cap_token_ttl_ms in
      let minted = token_text "cap" token_id expires (token_signature token_id scope expires) in
      let kept = retain (λ _ exp. ltb now exp) map in
      ground (
        arith,
        other,
        eq_law minted token,
        lookup-insert minted token expires kept,
        lookup-retain-none (λ _ exp. ltb now exp) token map h,
      )

  presenting-none :
      (token other scope : Text) (now : ℕ) (map : Tokens)
      → lookup token map ≡ none
      → lookup token (verify_and_consume_cap_token other scope now map).1 ≡ none
  unfolding verify_and_consume_cap_token
  presenting-none token other scope now map h = ground (
    arith,
    take_token-none token other now
        (bad_request "CAPTCHA token has already been consumed or is invalid.") map h,
  )

  calls-none :
      (token : Text) (calls : List TokenCall) (map : Tokens)
      → MintsOthers token calls
      → lookup token map ≡ none
      → lookup token (after_calls calls map) ≡ none
  unfolding after_calls after_call
  calls-none token [] map m h = h
  calls-none token (minting token_id scope now ∷ calls) map (other, m) h =
      calls-none token calls _ m (minting-none token token_id scope now map other h)
  calls-none token (presenting other scope now ∷ calls) map m h =
      calls-none token calls _ m (presenting-none token other scope now map h)

  accepted-taken :
      (token scope : Text) (now : ℕ) (map : Tokens)
      → (verify_and_consume_cap_token token scope now map).0 ≡ ok tt
      → lookup token (verify_and_consume_cap_token token scope now map).1 ≡ none
  unfolding verify_and_consume_cap_token
  accepted-taken token scope now map h = ground (
    arith,
    take_token-taken token now
        (bad_request "CAPTCHA token has already been consumed or is invalid.") map,
  )

  missing-refused :
      (token scope : Text) (now : ℕ) (map : Tokens)
      → lookup token map ≡ none
      → (verify_and_consume_cap_token token scope now map).0 ≢ ok tt
  unfolding verify_and_consume_cap_token
  missing-refused token scope now map h = λ accepted. ground (
    arith,
    take_token-missing token now
        (bad_request "CAPTCHA token has already been consumed or is invalid.") map h,
  )

  -- Once a token is accepted, it is refused ever after, for any scope and at any time, whatever
  -- tokens are presented or minted in between, if none of them is minted with the same text.
  pub cap_token_single_use :
      (token scope scope' : Text) (now now' : ℕ) (map : Tokens) (calls : List TokenCall)
      → MintsOthers token calls
      → (verify_and_consume_cap_token token scope now map).0 ≡ ok tt
      → (verify_and_consume_cap_token token scope' now'
          (after_calls calls (verify_and_consume_cap_token token scope now map).1)).0
        ≢ ok tt
  cap_token_single_use token scope scope' now now' map calls others accepted =
      missing-refused token scope' now' _
        (calls-none token calls _ others (accepted-taken token scope now map accepted))

  -- A token that was minted is accepted, with the store that minting left, at every later time
  -- before its expiry, for the scope it was minted for; the id and the keyed hashes hold no dot,
  -- and the expiry fits in 64 bits.
  pub minted_token_accepted :
      (token_id scope : Text) (now later : ℕ) (map : Tokens)
      → NoDot token_id
      → ((data_ : Text) → NoDot (hmac data_))
      → now + cap_token_ttl_ms < 2 ^ 64
      → later < now + cap_token_ttl_ms
      → (verify_and_consume_cap_token
          (token_text "cap" token_id
            (now + cap_token_ttl_ms)
            (token_signature token_id scope (now + cap_token_ttl_ms)))
          scope
          later
          (mint_cap_token token_id scope now map).1).0
        ≡ ok tt
  unfolding verify_and_consume_cap_token mint_cap_token
  minted_token_accepted token_id scope now later map i s fits in_time =
      let expires = now + cap_token_ttl_ms in
      let sig = token_signature token_id scope expires in
      let token = token_text "cap" token_id expires sig in
      let kept = retain (λ _ exp. ltb now exp) map in
      rw (token_parts-token_text "cap" token_id expires sig (unfold all text in refl) i (s _)) (
        rw (parse_u64-decimal expires fits) (
          rw ((constant_time_eq_iff sig sig).1 refl) (
            ground (
              arith,
              in_time,
              take_token-live token later expires
                  (bad_request "CAPTCHA token has already been consumed or is invalid.")
                  (insert token expires kept) (lookup_self token expires kept),
            ))))
