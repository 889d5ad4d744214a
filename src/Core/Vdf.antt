-- ===== src/Core/Vdf.antt =====
-- core/vdf.rs: the delay challenge and its Wesolowski proof. `BigUint` is ℕ; what the program calls
-- of num_bigint and of the hashes is the parameter `VdfDeps`.
pub mod Power
pub mod SingleUse
pub mod Completeness
use lqxp.Common.{
  ℕ, zero, suc, ◌+◌, ◌-◌, ◌*◌, ◌/◌, ◌%◌, ◌^◌, Bool, true, false, ◌||◌, not, Option, none, some,
  List, [], ◌∷◌, ◌++◌, map, ltb, leb, nat_beq, if◌then◌else◌, ◌==◌, length, take, unwrap_or, values,
  Text, text, decimal, ApiResult, bad_request, too_many_requests, fail_if, ok, err, panicked,
  text_Eq,
}
use lqxp.Core.ConstantTime.{constant_time_eq}
use lqxp.Core.Once.{Consumed, consume}

pub record VdfDeps : Type 0 where
  pub hmac : Text → Text  -- HMAC-SHA256 under the server's secret, in hex
  pub sha256 : Text → Text  -- the 32 bytes of the digest
  pub hex_of : Text → Text  -- `{:x}` of a digest
  pub normalize : Text → Text  -- `trim().to_lowercase()`
  pub to_bytes_be : ℕ → Text
  pub from_bytes_be : Text → ℕ
  pub parse_hex : Text → Option ℕ  -- `BigUint::parse_bytes(_, 16)`
  pub print_hex : ℕ → Text  -- `{:x}` of a number
  pub modpow : ℕ → ℕ → ℕ → ℕ
  pub modulus : ℕ  -- `get_modulus`
  pub be_bytes_u32 : ℕ → Text

pub record VdfChallenge : Type 0 where
  pub modulus : Text
  pub x : Text
  pub t : ℕ
  pub target_hash : Text
  pub salt : Text
  pub signature : Text
  pub issued_at : ℕ
  pub expires_at : ℕ

pub record VdfProof : Type 0 where
  pub y : Text
  pub pi : Text

abbrev pub vdf_ttl_ms : ℕ
vdf_ttl_ms = 180000

abbrev pub default_vdf_iterations : ℕ
default_vdf_iterations = 30000

abbrev small_primes : List ℕ
small_primes = 2 ∷ 3 ∷ 5 ∷ 7 ∷ 11 ∷ 13 ∷ 17 ∷ 19 ∷ 23 ∷ 29 ∷ 31 ∷ 37 ∷ []

pub data Trial : Type 0 where
  is_prime composite unknown : Trial

-- `for small in SMALL_PRIMES { … }`
unfoldable pub trial_division : ℕ → List ℕ → Trial
trial_division n [] = unknown
trial_division n (small ∷ rest) =
    let later = trial_division n rest in
    if nat_beq n small then is_prime else if nat_beq (n % small) 0 then composite else later

-- `while &d % &two == 0 { d /= &two; s += 1; }`, where `fuel` bounds the rounds.
unfoldable pub split_twos : ℕ → ℕ → ℕ → ℕ × ℕ
split_twos zero d s = (d, s)
split_twos (suc fuel) d s =
    let more = split_twos fuel (d / 2) (s + 1) in if nat_beq (d % 2) 0 then more else (d, s)

module _ (deps : VdfDeps) where
  open deps use {
    hmac, sha256, hex_of, normalize, to_bytes_be, from_bytes_be, parse_hex, print_hex, modpow,
    be_bytes_u32,
  }

  -- `for _ in 1..s { … }`: whether no square is `n - 1`.
  unfoldable pub is_witness : ℕ → ℕ → ℕ → Bool
  is_witness zero x n = true
  is_witness (suc rounds) x n =
      let y = modpow x 2 n in
      let later = is_witness rounds y n in if nat_beq y (n - 1) then false else later

  -- The bases of the Miller-Rabin test.
  unfoldable pub passes_bases : List ℕ → ℕ → ℕ → ℕ → Bool
  unfolding is_witness
  passes_bases [] n d s = true
  passes_bases (a ∷ bases) n d s =
      let x = modpow a d n in
      let later = passes_bases bases n d s in
      if leb n a
      then later
      else if nat_beq x 1 || nat_beq x (n - 1)
      then later
      else if is_witness (s - 1) x n
      then false
      else later

  after_trial : Trial → ℕ → Bool
  unfolding passes_bases split_twos
  after_trial is_prime n = true
  after_trial composite n = false
  after_trial unknown n = let (d, s) = split_twos n (n - 1) 0 in passes_bases small_primes n d s

  unfoldable pub is_probable_prime : ℕ → Bool
  unfolding after_trial trial_division
  is_probable_prime n = if ltb n 2 then false else after_trial (trial_division n small_primes) n

  -- The first 16 bytes of the digest with the top and the lowest bit forced.
  abbrev prime_candidate : Text → ℕ
  prime_candidate digest =
      let v = from_bytes_be (take 16 digest) in v % 2 ^ 127 / 2 * 2 + 1 + 2 ^ 127

  prime_input : ℕ → ℕ → ℕ → Text
  prime_input x y counter =
      text "qxprotocol_vdf_prime_l:"
      ++ (to_bytes_be x ++ (text ":" ++ (to_bytes_be y ++ (text ":" ++ be_bytes_u32 counter))))

  -- The loop over the counter, with fuel.
  unfoldable pub hash_to_prime : ℕ → ℕ → ℕ → ℕ → Option ℕ
  unfolding prime_input is_probable_prime
  hash_to_prime zero x y counter = none
  hash_to_prime (suc fuel) x y counter =
      let candidate = prime_candidate (sha256 (prime_input x y counter)) in
      let later = hash_to_prime fuel x y (counter + 1) in
      if is_probable_prime candidate then some candidate else later

  -- `hash_target`: the first 16 characters of the digest in hex.
  unfoldable pub hash_target : Text → Text
  hash_target target = take 16 (hex_of (sha256 (normalize target)))

  -- `hash_to_element`: in the range from 2 below the modulus.
  unfoldable pub hash_to_element : Text → Text → ℕ → ℕ
  hash_to_element target salt m =
      from_bytes_be
          (sha256 (text "qxprotocol_vdf_x_element:" ++ (normalize target ++ (text ":" ++ salt))))
        % (m - 3)
      + 2

  unfoldable pub signed_content : ℕ → ℕ → Text → Text → Text → ℕ → Text
  signed_content issued_at t target_hash salt x expires_at =
      decimal issued_at
      ++ (text ":"
          ++ (decimal t
              ++ (text ":"
                  ++ (target_hash
                      ++ (text ":"
                          ++ (salt ++ (text ":" ++ (x ++ (text ":" ++ decimal expires_at)))))))))

  abbrev target_or_none : Option Text → Text
  target_or_none none = text "none"
  target_or_none (some target) = hash_target target

  unfoldable pub generate_vdf_challenge : ℕ → Text → Option Text → Option ℕ → VdfChallenge
  unfolding hash_to_element signed_content
  generate_vdf_challenge now salt target iterations_override =
      let t = unwrap_or iterations_override default_vdf_iterations in
      let x = print_hex (hash_to_element (unwrap_or target []) salt deps.modulus) in
      let target_hash = target_or_none target in
      let expires_at = now + vdf_ttl_ms in
      record {
        modulus = print_hex deps.modulus;
        x = x;
        t = t;
        target_hash = target_hash;
        salt = salt;
        signature = hmac (signed_content now t target_hash salt x expires_at);
        issued_at = now;
        expires_at = expires_at;
      }

  unfoldable pub verify_signature : Text → Text → Bool
  unfolding constant_time_eq
  verify_signature content signature = constant_time_eq (hmac content) signature

  abbrev wrong_target : Option Text → VdfChallenge → Bool
  wrong_target none challenge = false
  wrong_target (some target) challenge = not (challenge.target_hash == hash_target target)

  abbrev out_of_range : ℕ → ℕ → ℕ → Bool
  out_of_range x y pi =
      ltb x 2
      || (ltb y 2
          || (ltb pi 2 || (leb deps.modulus x || (leb deps.modulus y || leb deps.modulus pi))))

  -- `(pi^l * x^r) mod N == y`, with `r = 2^T mod l`.
  unfoldable pub proof_equation : ℕ → ℕ → ℕ → ℕ → ℕ → Bool
  proof_equation t l x y pi =
      let r = modpow 2 t l in
      nat_beq (modpow pi l deps.modulus * modpow x r deps.modulus % deps.modulus) y

  -- `none` where the fuel of `hash_to_prime` runs out.
  check_proof : Option ℕ → ℕ → ℕ → ℕ → ℕ → Option (ApiResult (Unit {0}))
  check_proof none t x y pi = none
  check_proof (some l) t x y pi =
      some (fail_if (not (proof_equation t l x y pi)) (bad_request "Invalid VDF delay proof."))

  check_values : ℕ → ℕ → Option ℕ → Option ℕ → Option ℕ → Option (ApiResult (Unit {0}))
  unfolding check_proof hash_to_prime
  check_values fuel t none _ _ = some (err (bad_request "Malformed VDF parameter x."))
  check_values fuel t (some x) none _ = some (err (bad_request "Malformed VDF result y."))
  check_values fuel t (some x) (some y) none = some (err (bad_request "Malformed VDF proof pi."))
  check_values fuel t (some x) (some y) (some pi) =
      if out_of_range x y pi
      then some (err (bad_request "VDF values exceed modulus bound."))
      else check_proof (hash_to_prime fuel x y 0) t x y pi

  unfoldable pub verify_vdf :
      ℕ → VdfChallenge → VdfProof → Option Text → ℕ → Option (ApiResult (Unit {0}))
  unfolding signed_content verify_signature check_values
  verify_vdf fuel challenge proof expected_target now =
      if ltb challenge.expires_at now
      then some (err (bad_request "VDF security challenge expired."))
      else if not (
          verify_signature
            (signed_content challenge.issued_at challenge.t challenge.target_hash challenge.salt
              challenge.x challenge.expires_at)
            challenge.signature)
      then some (err (bad_request "Invalid VDF security challenge signature."))
      else if wrong_target expected_target challenge
      then some (err (bad_request "VDF security challenge was not bound to this target username."))
      else if ltb 1024 (length challenge.x)
          || (ltb 1024 (length proof.y) || ltb 1024 (length proof.pi))
      then some (err (bad_request "VDF parameters exceed size bound."))
      else check_values fuel challenge.t (parse_hex challenge.x) (parse_hex proof.y)
          (parse_hex proof.pi)

  and_consume :
      Option (ApiResult (Unit {0}))
      → VdfChallenge
      → ℕ
      → Consumed
      → Option (ApiResult (Unit {0}) × Consumed)
  unfolding consume
  and_consume none challenge now map = none
  and_consume (some (ok _)) challenge now map = some (
      consume challenge.signature now challenge.expires_at
        (too_many_requests "Security challenge has already been used. Please request a new one.")
        map)
  and_consume (some (err e)) challenge now map = some (err e, map)
  and_consume (some panicked) challenge now map = some (panicked, map)

  unfoldable pub verify_and_consume_vdf :
      ℕ
      → VdfChallenge
      → VdfProof
      → Option Text
      → ℕ
      → ℕ
      → Consumed
      → Option (ApiResult (Unit {0}) × Consumed)
  unfolding and_consume
  verify_and_consume_vdf fuel challenge proof expected_target checked now map =
      and_consume (verify_vdf fuel challenge proof expected_target checked) challenge now map
