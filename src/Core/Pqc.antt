-- ===== src/Core/Pqc.antt =====
-- core/pqc.rs: one-time ML-KEM keys. The key pairs and the decapsulation come from the crate
-- ml_kem: the type `DecapsulationKey` and `decapsulate` are parameters.
pub mod OneTime
pub mod Served
use lqxp.Common.{
  ℕ, ◌+◌, ◌-◌, ◌/◌, Option, none, some, List, ltb, if◌then◌else◌, length, Assoc, retain, lookup,
  remove, insert, Text, ApiResult, bad_request, ok_or, Exec, err, panicked, text_Eq,
}
use lqxp.Core.Hex.{Decoded, decoded, slice_panic, hex_encode, hex_decode}

pub record PqcPublicKey : Type 0 where
  pub key_id : Text
  pub ek_hex : Text

pub record PqcCiphertext : Type 0 where
  pub key_id : Text
  pub ct_hex : Text

abbrev pub pqc_key_ttl_ms : ℕ
pqc_key_ttl_ms = 180000

pub record PqcSecretKey (DecapsulationKey : Type 0) : Type 0 where
  pub dk : DecapsulationKey
  pub expires_at : ℕ

module _ (DecapsulationKey : Type 0) where
  abbrev pub ActiveKeys : Type 0
  ActiveKeys = Assoc Text (PqcSecretKey DecapsulationKey)

  sweep_keys : ℕ → ActiveKeys → ActiveKeys
  sweep_keys now keys =
      if ltb 10000 (length keys) then retain (λ _ k. ltb now k.expires_at) keys else keys

  -- `key_id` is 16 random bytes in hex, `ek_bytes` and `dk` the generated pair.
  unfoldable pub issue_pqc_challenge :
      Text → List ℕ → DecapsulationKey → ℕ → ℕ → ActiveKeys → PqcPublicKey × ActiveKeys
  unfolding sweep_keys
  issue_pqc_challenge key_id ek_bytes dk issued now keys = (
    record { key_id = key_id; ek_hex = hex_encode ek_bytes },
    insert key_id (record { dk = dk; expires_at = issued + pqc_key_ttl_ms }) (sweep_keys now keys),
  )

  module _ (decapsulate_slice : DecapsulationKey → List ℕ → Option (List ℕ)) where
    decapsulate : DecapsulationKey → Decoded → ApiResult (List ℕ)
    decapsulate dk (decoded (some ct_bytes)) =
        ok_or (decapsulate_slice dk ct_bytes) (bad_request "ML-KEM decapsulation failed.")
    decapsulate dk (decoded none) = err (bad_request "Malformed ML-KEM ciphertext encoding.")
    decapsulate dk slice_panic = panicked

    use_key : Option (PqcSecretKey DecapsulationKey) → Text → ℕ → ApiResult (List ℕ)
    unfolding decapsulate
    use_key none ct_hex now =
        err (bad_request "PQC ephemeral quantum challenge expired or already consumed.")
    use_key (some sk) ct_hex now =
        if ltb sk.expires_at now
        then err (bad_request "PQC ephemeral quantum challenge expired.")
        else decapsulate sk.dk (hex_decode ct_hex)

    -- The key goes before anything is checked.
    unfoldable pub verify_and_decapsulate_pqc : PqcCiphertext → ℕ → Exec ActiveKeys (List ℕ)
    unfolding use_key
    verify_and_decapsulate_pqc ct now keys =
        (use_key (lookup ct.key_id keys) ct.ct_hex now, remove ct.key_id keys)
