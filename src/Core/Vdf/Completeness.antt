-- ===== src/Core/Vdf/Completeness.antt =====
-- Lemmas about an honest proof and about the equation of an accepted one.

use lqxp.Common.{
  ℕ, zero, suc, ◌+◌, ◌/◌, ◌%◌, ◌^◌, ◌≤◌, ◌<◌, ◌≡◌, sym, inl, inr, true, false, Option, some, arith,
  nat_beq_iff, Bool-cases, length, Text, ok, text_Eq,
}
use lqxp.Core.ConstantTime.{constant_time_eq_iff}
use lqxp.Core.Vdf.Power.{wesolowski}
use lqxp.Core.Vdf.{
  VdfDeps, VdfChallenge, VdfProof, proof_equation, hash_to_prime, verify_vdf, verify_signature,
  signed_content, wrong_target, check_values, check_proof, out_of_range, is_probable_prime,
  prime_candidate, prime_input,
}

some_pos : (v l : ℕ) → 0 < v → some v ≡ some l → 0 < l
some_pos v l h e = ground arith

module _ (deps : VdfDeps) where
  -- What the loop returns is odd.
  hash_to_prime_pos :
      (fuel x y counter l : ℕ) → hash_to_prime deps fuel x y counter ≡ some l → 0 < l
  unfolding hash_to_prime
  hash_to_prime_pos zero x y counter l h = cc
  hash_to_prime_pos (suc fuel) x y counter l h =
      elim (Bool-cases (
        is_probable_prime deps
          (prime_candidate deps (deps.sha256 (prime_input deps x y counter))))) [
            | inl found ↦
                some_pos (prime_candidate deps (deps.sha256 (prime_input deps x y counter))) l
                  (omega arith) (rw found at h)
            | inr next ↦ hash_to_prime_pos fuel x y (counter + 1) l (rw next at h)
          ]

  module _ (modpow_lem : (b e m : ℕ) → 0 < m → deps.modpow b e m ≡ b ^ e % m)
      (modulus_pos : 0 < deps.modulus) where
    honest_equation :
        (t l x : ℕ)
        → 0 < l
        → proof_equation deps t l x (x ^ (2 ^ t) % deps.modulus) (x ^ (2 ^ t / l) % deps.modulus)
          ≡ true
    unfolding proof_equation
    honest_equation t l x h =
        rw (modpow_lem 2 t l h, modpow_lem _ l _ modulus_pos, modpow_lem x _ _ modulus_pos)
          ((nat_beq_iff _ _).1 (wesolowski x (2 ^ t) l deps.modulus))

    values_accepted :
        (fuel t x y pi l : ℕ)
        → out_of_range deps x y pi ≡ false
        → hash_to_prime deps fuel x y 0 ≡ some l
        → proof_equation deps t l x y pi ≡ true
        → check_values deps fuel t (some x) (some y) (some pi) ≡ some (ok tt)
    unfolding check_values
    values_accepted fuel t x y pi l range prime equation =
        rw (range, prime, check_proof) (rw equation)

    -- With the current time in the challenge's life, a signature of the server, the right target,
    -- parameters within the size bound and values in range, the proof that an honest client computes
    -- (the output `x^(2^t) mod N` and the proof `x^(2^t / l) mod N`) is accepted.
    pub verify_vdf_accepts_honest :
        (fuel : ℕ) (challenge : VdfChallenge) (proof : VdfProof) (target : Option Text)
        (now x y pi l : ℕ)
        → now ≤ challenge.expires_at
        → challenge.signature
          ≡ deps.hmac (
              signed_content deps challenge.issued_at challenge.t challenge.target_hash
                challenge.salt challenge.x challenge.expires_at)
        → wrong_target deps target challenge ≡ false
        → length challenge.x ≤ 1024
        → length proof.y ≤ 1024
        → length proof.pi ≤ 1024
        → deps.parse_hex challenge.x ≡ some x
        → deps.parse_hex proof.y ≡ some y
        → deps.parse_hex proof.pi ≡ some pi
        → out_of_range deps x y pi ≡ false
        → hash_to_prime deps fuel x y 0 ≡ some l
        → y ≡ x ^ (2 ^ challenge.t) % deps.modulus
        → pi ≡ x ^ (2 ^ challenge.t / l) % deps.modulus
        → verify_vdf deps fuel challenge proof target now ≡ some (ok tt)
    unfolding verify_vdf verify_signature
    verify_vdf_accepts_honest fuel challenge proof target now x y pi l fresh signed right bx by bp
          px py pp range prime ey ep =
        let equation : proof_equation deps challenge.t l x y pi ≡ true =
          rw (ey, ep) (honest_equation challenge.t l x (hash_to_prime_pos fuel x y 0 l prime)) in
        let content =
          signed_content deps challenge.issued_at challenge.t challenge.target_hash challenge.salt
            challenge.x challenge.expires_at in
        let signature : verify_signature deps content challenge.signature ≡ true =
          (constant_time_eq_iff _ _).1 (sym signed) in
        rw (px, py, pp)
          (ground
            (arith, signature, values_accepted fuel challenge.t x y pi l range prime equation))
