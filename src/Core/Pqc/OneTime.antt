-- ===== src/Core/Pqc/OneTime.antt =====
-- Repeated uses of a key of core/pqc.rs.
use lqxp.Common.{
  ℕ, ◌≡◌, refl, Option, none, List, if◌then◌else◌, ◌==◌, eq_refl, lookup, lookup-remove, Text,
  bad_request, err, text_Eq,
}
use lqxp.Core.Pqc.{PqcCiphertext, ActiveKeys, use_key, verify_and_decapsulate_pqc}

module _ (DecapsulationKey : Type 0)
    (decapsulate_slice : DecapsulationKey → List ℕ → Option (List ℕ)) where
  -- After a call that names a key, whatever came of it, the next call that names it is refused as
  -- expired or consumed, and the call leaves every other key as it was.
  pub key_serves_once :
      (ct ct' : PqcCiphertext) (now now' : ℕ) (keys : ActiveKeys DecapsulationKey) (other : Text)
      → ct'.key_id ≡ ct.key_id
      → ((verify_and_decapsulate_pqc DecapsulationKey decapsulate_slice ct' now'
            (verify_and_decapsulate_pqc DecapsulationKey decapsulate_slice ct now keys).1).0
          ≡ err (bad_request "PQC ephemeral quantum challenge expired or already consumed."))
        × (lookup other
              (verify_and_decapsulate_pqc DecapsulationKey decapsulate_slice ct now keys).1
            ≡ (if ct.key_id == other then none else lookup other keys))
  unfolding verify_and_decapsulate_pqc use_key
  key_serves_once ct ct' now now' keys other same = (
    rw (same, lookup-remove ct.key_id ct.key_id keys, eq_refl ct.key_id) refl,
    lookup-remove ct.key_id other keys,
  )
