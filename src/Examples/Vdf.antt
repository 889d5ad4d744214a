-- ===== src/Examples/Vdf.antt =====
-- A run of the delay proof, with small stand-ins for the hashes and for modular powers.
use lqxp.Common.{
  ◌≡◌, refl, ◌≢◌, none, some, [], ◌∷◌, arith, nat_beq, if◌then◌else◌, lookup, remove, insert, text,
  text_eq, decimal, ok,
}
use lqxp.Core.ConstantTime.{constant_time_eq}
use lqxp.Core.Once.{consume}
use lqxp.Core.Vdf.{
  VdfDeps, VdfChallenge, VdfProof, generate_vdf_challenge, verify_signature, verify_vdf,
  hash_to_prime, is_probable_prime, trial_division, passes_bases, split_twos, is_witness,
  proof_equation, signed_content, hash_to_element, hash_target, verify_and_consume_vdf,
}
use lqxp.Core.Vdf.SingleUse.{Use, use_of, run, challenge_used_once}

-- The digest reads as the number 29, every text as the number 2, and a power is 5 to the modulus 23
-- and 1 to any other: 5 * 5 is 2 to the modulus 23.
abbrev pub small_deps : VdfDeps
small_deps = record {
  hmac = λ s. 104 ∷ s;
  sha256 = λ s. s;
  hex_of = λ s. s;
  normalize = λ s. s;
  to_bytes_be = λ n. n ∷ [];
  from_bytes_be = λ s. 29;
  parse_hex = λ s. some 2;
  print_hex = λ n. decimal n;
  modpow = λ b e m. if nat_beq m 23 then 5 else 1;
  modulus = 23;
  be_bytes_u32 = λ n. n ∷ [];
}

abbrev challenge : VdfChallenge
challenge = generate_vdf_challenge small_deps 0 (text "s") none (some 3)

abbrev pub proof : VdfProof
proof = record { y = text "2"; pi = text "2" }

proof_accepted :
    verify_and_consume_vdf small_deps 1 challenge proof none 5 5 []
    ≡ some (ok tt, (challenge.signature, 180000) ∷ [])
unfolding verify_and_consume_vdf generate_vdf_challenge verify_vdf verify_signature constant_time_eq
    hash_to_prime is_probable_prime trial_division passes_bases split_twos is_witness proof_equation
    signed_content hash_to_element hash_target consume lookup insert remove text text_eq decimal
proof_accepted = refl

abbrev once : Use
once = record {
  fuel = 1;
  challenge = challenge;
  proof = proof;
  target = none;
  checked = 5;
  now = 5;
}

abbrev again : Use
again = record once { checked = 7; now = 7 }

-- Another challenge, used in between.
abbrev other : Use
other = record once {
  challenge = generate_vdf_challenge small_deps 0 (text "t") none (some 3);
  checked = 6;
  now = 6;
}

challenge_used_once_example :
    use_of small_deps again (run small_deps (other ∷ []) ((challenge.signature, 180000) ∷ []))
    ≢ some (ok tt, [])
unfolding generate_vdf_challenge
challenge_used_once_example =
    challenge_used_once small_deps once again (other ∷ []) [] ((challenge.signature, 180000) ∷ [])
      [] refl (omega arith) (omega arith, tt) proof_accepted
