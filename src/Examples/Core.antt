-- ===== src/Examples/Core.antt =====
-- Runs of the rate limiter, the quota tokens, the tokens of solved challenges and the hex codec.
use lqxp.Common.{
  ℕ, ◌-◌, ◌≤◌, ◌≡◌, refl, ◌≢◌, Option, none, some, List, [], ◌∷◌, ◌++◌, arith, ltb, if◌then◌else◌,
  ◌==◌, all, lookup, Text, text, text_eq, split, decimal, parse_u64, bad_request, ok, err, text_Eq,
}
use lqxp.Core.ConstantTime.{constant_time_eq}
use lqxp.Core.RateLimit.{Buckets, touch, rate_limit_hit}
use lqxp.Core.RateLimit.Window.{admitted, admitted-le-limit}
use lqxp.Core.RateLimit.Window
use lqxp.Core.RateLimit.Purge.{hit_without_purge}
use lqxp.Core.Once.{consume}
use lqxp.Core.Rln.{
  EpochQuotaToken, generate_quota_token, compute_nullifier, verify_ticket_signature,
  verify_and_consume_nullifier,
}
use lqxp.Core.Rln.SingleUse.{run, step, quota_token_single_use}
use lqxp.Core.Rln.SingleUse
use lqxp.Core.Token.{Tokens, token_text, token_parts, take_token}
use lqxp.Core.Cap.{
  mint_cap_token, verify_and_consume_cap_token, after_calls, presenting, token_signature,
  cap_token_single_use, minted_token_accepted,
}
use lqxp.Core.Pqc.{PqcCiphertext, ActiveKeys, verify_and_decapsulate_pqc}
use lqxp.Core.Pqc.OneTime.{key_serves_once}
use lqxp.Core.Hex.{hex_encode, hex_decode, decoded, slice_panic}
use lqxp.Core.Hex.RoundTrip.{hex_decode-hex_encode, hex_decode_panics}

-- A stand-in for the keyed hash.
abbrev tagged : Text → Text
tagged s = 104 ∷ s

-- Two calls are counted of three: of two more, one is let through.
abbrev one_bucket : Buckets
one_bucket = (text "k", record { window_start_ms = 100; window_ms = 50; count = 2 }) ∷ []

abbrev two_calls : List Window.Call
two_calls =
    record { key = text "k"; limit = 3; window_ms = 50; now = 110 }
    ∷ record { key = text "k"; limit = 3; window_ms = 50; now = 120 }
    ∷ []

admitted-le-limit_example : admitted (text "k") two_calls one_bucket ≤ 3 - 2
unfolding lookup text_eq text
admitted-le-limit_example =
    admitted-le-limit (text "k") 3 100 50 2 two_calls one_bucket (omega arith)
      (omega arith, λ _. (refl, refl), (omega arith, λ _. (refl, refl), tt)) refl

hit_without_purge_example :
    (rate_limit_hit (text "k") 3 50 120 one_bucket).0
    ≡ ltb 3 (touch (lookup (text "k") one_bucket) 120 50).count
unfolding lookup text_eq text
hit_without_purge_example =
    hit_without_purge (text "k") 3 50 120 one_bucket (λ b h. ground arith) (refl, tt)

-- A token of epoch 100, and the use of it.
abbrev quota : EpochQuotaToken
quota = generate_quota_token tagged (λ s. s) 1500000 (text "ff")

abbrev quota_nullifier : Text
quota_nullifier = compute_nullifier tagged (λ s. s) quota.ticket quota.epoch (text "post")

abbrev quota_call : ℕ → SingleUse.Call
quota_call now = record {
  token = quota;
  nullifier = quota_nullifier;
  action = text "post";
  now = now;
  later = now;
}

quota_accepted :
    (verify_and_consume_nullifier tagged
      (λ s. s)
      quota
      quota_nullifier
      (text "post")
      1500000
      1500000
      []).0
    ≡ ok tt
unfolding verify_and_consume_nullifier verify_ticket_signature generate_quota_token consume lookup
    compute_nullifier constant_time_eq text text_eq decimal
quota_accepted = refl

quota_token_single_use_example :
    (verify_and_consume_nullifier tagged
      (λ s. s)
      quota
      quota_nullifier
      (text "post")
      1500010
      1500010
      (run tagged (λ s. s) [] (step tagged (λ s. s) (quota_call 1500000) []))).0
    ≢ ok tt
quota_token_single_use_example =
    quota_token_single_use tagged (λ s. s) (quota_call 1500000) (quota_call 1500010) [] [] refl refl
      (omega arith) (omega arith) tt quota_accepted

abbrev cap_token : Text
cap_token =
    token_text "cap" (text "ab") 300000
      (token_signature (λ s. text "aa") (text "ab") (text "phantom") 300000)

abbrev cap_tokens : Tokens
cap_tokens = (cap_token, 300000) ∷ []

cap_accepted :
    (verify_and_consume_cap_token (λ s. text "aa") cap_token (text "phantom") 5 cap_tokens).0
    ≡ ok tt
unfolding verify_and_consume_cap_token token_parts take_token lookup text_eq text token_text
    parse_u64 decimal split constant_time_eq
cap_accepted = refl

cap_token_single_use_example :
    (verify_and_consume_cap_token
      (λ s. text "aa")
      cap_token
      (text "phantom")
      7
      (after_calls
        (λ s. text "aa")
        (presenting cap_token (text "other") 6 ∷ [])
        (verify_and_consume_cap_token
          (λ s. text "aa")
          cap_token
          (text "phantom")
          5
          cap_tokens).1)).0
    ≢ ok tt
cap_token_single_use_example =
    cap_token_single_use (λ s. text "aa") cap_token (text "phantom") (text "phantom") 5 7 cap_tokens
      (presenting cap_token (text "other") 6 ∷ []) tt cap_accepted

minted_token_accepted_example :
    (verify_and_consume_cap_token
      (λ s. text "aa")
      (token_text "cap"
        (text "ab")
        300000
        (token_signature (λ s. text "aa") (text "ab") (text "phantom") 300000))
      (text "phantom")
      5
      (mint_cap_token (λ s. text "aa") (text "ab") (text "phantom") 0 []).1).0
    ≡ ok tt
unfolding all text
minted_token_accepted_example =
    minted_token_accepted (λ s. text "aa") (text "ab") (text "phantom") 0 5 [] refl (λ d. refl)
      (omega arith) (omega arith)

hex_decode-hex_encode_example :
    hex_decode (hex_encode (0 ∷ 255 ∷ [])) ≡ decoded (some (0 ∷ 255 ∷ []))
hex_decode-hex_encode_example =
    hex_decode-hex_encode (0 ∷ 255 ∷ []) (omega arith, (omega arith, tt))

hex_decode_panics_example :
    hex_decode (hex_encode (18 ∷ []) ++ 97 ∷ 195 ∷ 169 ∷ 97 ∷ []) ≡ slice_panic
hex_decode_panics_example =
    hex_decode_panics (18 ∷ []) 97 195 169 97 [] (omega arith, tt) refl refl refl

abbrev ciphertext : PqcCiphertext
ciphertext = record { key_id = text "k"; ct_hex = text "0aff" }

abbrev pqc_keys : ActiveKeys Text
pqc_keys = (text "k", record { dk = text "secret"; expires_at = 9 }) ∷ []

abbrev decapsulates : Text → List ℕ → Option (List ℕ)
decapsulates dk ct_bytes = some ct_bytes

key_serves_once_example :
    ((verify_and_decapsulate_pqc Text decapsulates ciphertext 6
        (verify_and_decapsulate_pqc Text decapsulates ciphertext 5 pqc_keys).1).0
      ≡ err (bad_request "PQC ephemeral quantum challenge expired or already consumed."))
    × (lookup (text "j") (verify_and_decapsulate_pqc Text decapsulates ciphertext 5 pqc_keys).1
        ≡ (if text "k" == text "j" then none else lookup (text "j") pqc_keys))
key_serves_once_example =
    key_serves_once Text decapsulates ciphertext ciphertext 5 6 pqc_keys (text "j") refl
