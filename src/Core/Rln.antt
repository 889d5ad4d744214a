-- ===== src/Core/Rln.antt =====
-- core/rln.rs: epoch quota tokens and their nullifiers. The keyed hash (HMAC-SHA256, in hex) and
-- the hash (SHA-256, in hex) are parameters; the clock's two readings are arguments.
pub mod SingleUse
use lqxp.Common.{
  ℕ, zero, suc, ◌+◌, ◌-◌, ◌/◌, ◌%◌, ◌^◌, Bool, ◌||◌, not, [], ◌∷◌, ◌++◌, ltb, ◌==◌, Text, text,
  decimal, bad_request, too_many_requests, Exec, reject_if, ◌>>=◌, ◌>>◌, text_Eq,
}
use lqxp.Core.ConstantTime.{constant_time_eq}
use lqxp.Core.Once.{Consumed, consume}

pub record EpochQuotaToken : Type 0 where
  pub epoch : ℕ
  pub ticket : Text
  pub signature : Text

abbrev pub epoch_window_ms : ℕ
epoch_window_ms = 15000

abbrev pub nullifier_ttl_ms : ℕ
nullifier_ttl_ms = 180000

-- `current_epoch`, at a reading of the clock.
abbrev pub epoch_at : ℕ → ℕ
epoch_at now = now / epoch_window_ms

-- `u64::to_be_bytes`.
be_bytes : ℕ → ℕ → Text
be_bytes zero n = []
be_bytes (suc width) n = (n / 256 ^ width % 256) ∷ be_bytes width n

abbrev pub outside_window : EpochQuotaToken → ℕ → Bool
outside_window token curr_epoch =
    ltb (curr_epoch + 1) token.epoch || ltb 4 (curr_epoch - token.epoch)

module _ (hmac sha256 : Text → Text) where
  unfoldable pub verify_ticket_signature : Text → Text → Bool
  unfolding constant_time_eq
  verify_ticket_signature ticket_data signature = constant_time_eq (hmac ticket_data) signature

  -- The nonce is 16 random bytes in hex.
  unfoldable pub generate_quota_token : ℕ → Text → EpochQuotaToken
  generate_quota_token now nonce_hex =
      let epoch = epoch_at now in
      let ticket = hmac (decimal epoch ++ (text ":" ++ nonce_hex)) in
      record {
        epoch = epoch;
        ticket = ticket;
        signature = hmac (decimal epoch ++ (text ":" ++ ticket));
      }

  unfoldable pub compute_nullifier : Text → ℕ → Text → Text
  unfolding be_bytes
  compute_nullifier ticket epoch action = sha256 (
      text "qxprotocol_rln_nullifier:"
      ++ (ticket ++ (text ":" ++ (be_bytes 8 epoch ++ (text ":" ++ action)))))

  unfoldable pub verify_and_consume_nullifier :
      EpochQuotaToken → Text → Text → ℕ → ℕ → Exec Consumed (Unit {0})
  verify_and_consume_nullifier token nullifier expected_action now later = do
    reject_if (outside_window token (epoch_at later))
        (bad_request "Anonymous quota token expired. Please obtain a fresh token.")
    reject_if
        (not (
          verify_ticket_signature (decimal token.epoch ++ (text ":" ++ token.ticket))
            token.signature))
        (bad_request "Invalid anonymous quota token signature.")
    reject_if (not (nullifier == compute_nullifier token.ticket token.epoch expected_action))
        (bad_request "Malformed rate-limiting nullifier.")
    consume nullifier now (now + nullifier_ttl_ms)
        (too_many_requests "Rate limit quota exceeded for this epoch. Please wait.")
