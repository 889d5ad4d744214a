-- ===== src/Core/Pqc/Served.antt =====
-- What an answer of `verify_and_decapsulate_pqc` of core/pqc.rs says of the key.
use lqxp.Common.{
  eq_refl, ℕ, ◌≤◌, ◌≡◌, refl, inl, inr, Option, none, some, List, arith, Option-cases, eq_refl,
  lookup, lookup-remove, text_Eq, ok,
}
use lqxp.Common.{text_Eq, Option-cases, eq_refl, lookup-remove}
use lqxp.Core.Hex.{Decoded, decoded, slice_panic, hex_decode}
use lqxp.Core.Pqc.{
  PqcCiphertext, PqcSecretKey, ActiveKeys, decapsulate, use_key, verify_and_decapsulate_pqc,
}

module _ (DecapsulationKey : Type 0)
    (decapsulate_slice : DecapsulationKey → List ℕ → Option (List ℕ)) where
  -- The key that the ciphertext names is there and has not expired, and it opens the ciphertext;
  -- afterwards it is gone.
  pub KeyServed :
      PqcCiphertext → ℕ → ActiveKeys DecapsulationKey → ActiveKeys DecapsulationKey → Type 0
  KeyServed ct now keys keys' =
      (sk : PqcSecretKey DecapsulationKey) × (bytes : List ℕ) × (secret : List ℕ) × (lookup
          ct.key_id keys
        ≡ some sk)
      × (now ≤ sk.expires_at)
      × (hex_decode ct.ct_hex ≡ decoded (some bytes))
      × (decapsulate_slice sk.dk bytes ≡ some secret)
      × (lookup ct.key_id keys' ≡ none)

  opened :
      (sk : PqcSecretKey DecapsulationKey) (d : Decoded) (secret : List ℕ)
      → decapsulate DecapsulationKey decapsulate_slice sk.dk d ≡ ok secret
      → (bytes : List ℕ) × (d ≡ decoded (some bytes))
        × (decapsulate_slice sk.dk bytes ≡ some secret)
  unfolding decapsulate
  opened sk (decoded (some bytes)) secret h = (bytes, refl, ground (arith, h))
  opened sk (decoded none) secret h = cc
  opened sk slice_panic secret h = cc

  pub key_parts :
      (ct : PqcCiphertext) (now : ℕ) (keys : ActiveKeys DecapsulationKey) (secret : List ℕ)
      → (verify_and_decapsulate_pqc DecapsulationKey decapsulate_slice ct now keys).0 ≡ ok secret
      → KeyServed ct now keys
          (verify_and_decapsulate_pqc DecapsulationKey decapsulate_slice ct now keys).1
  unfolding verify_and_decapsulate_pqc use_key KeyServed
  key_parts ct now keys secret h = elim (Option-cases (lookup ct.key_id keys)) [
    | inl e ↦ ground (arith, h, e)
    | inr (sk, e) ↦
        let (bytes, read, opens) = opened sk (hex_decode ct.ct_hex) secret (ground (arith, h, e)) in
        (
          sk,
          bytes,
          secret,
          e,
          ground (arith, h, e),
          read,
          opens,
          ground (arith, lookup-remove ct.key_id ct.key_id keys, eq_refl ct.key_id),
        )
  ]
