-- ===== src/Chat/Encrypted.antt =====
-- `parse_encrypted_payload` of websocket/protocol.rs: the checks on an encrypted message.
pub mod Bounds
use lqxp.Common.{
  ℕ, ◌-◌, ◌*◌, ◌/◌, Bool, true, false, not, Option, none, some, ltb, nat_beq, if◌then◌else◌, length,
  Text, text, ok_or, text_Eq,
}
use Prim.Native.String.{String}
use lqxp.Common.Chars.{take_chars, char_count, char_count-take_chars, take_chars_nonempty}
use lqxp.Common.Json.{Json, null, object, get_field, as_u64, as_object, trimmed_field, nonempty}
use lqxp.Chat.Record.{EncryptedPayload}
use lqxp.Room.Decide.{Verdict, allow, refuse}

abbrev pub max_encrypted_alg_len : ℕ
max_encrypted_alg_len = 32

abbrev pub max_encrypted_iv_len : ℕ
max_encrypted_iv_len = 128

abbrev pub max_encrypted_salt_len : ℕ
max_encrypted_salt_len = 128

abbrev pub max_encrypted_device_id_len : ℕ
max_encrypted_device_id_len = 64

abbrev pub max_encrypted_signature_len : ℕ
max_encrypted_signature_len = 256

abbrev pub max_encrypted_signing_key_len : ℕ
max_encrypted_signing_key_len = 2048

abbrev pub max_encrypted_ciphertext_len : ℕ
max_encrypted_ciphertext_len = 18 * 1024 * 1024

abbrev pub max_encrypted_room_id_len : ℕ
max_encrypted_room_id_len = 64

infixl 5 ◌>>=◌ ◌>>◌
abbrev pub ◌>>=◌ : {A B : Type 0} → Verdict A → (A → Verdict B) → Verdict B
allow a >>= f = f a
refuse e >>= f = refuse e

abbrev pub ◌>>◌ : {A B : Type 0} → Verdict A → Verdict B → Verdict B
allow a >> k = k
refuse e >> k = refuse e

-- `.ok_or(message)?`
abbrev pub required : {A : Type 0} → Option A → String → Verdict A
required none message = refuse message
required (some a) message = allow a

-- `if c { return Err(message); }`
abbrev pub unless : Bool → String → Verdict (Unit {0})
unless true message = refuse message
unless false message = allow tt

positive : Option ℕ → Option ℕ
positive none = none
positive (some n) = if ltb 0 n then some n else none

shortened : ℕ → Option Text → Option Text
shortened n none = none
shortened n (some s) = some (take_chars n s)

parse_present : Verdict EncryptedPayload → Verdict (Option EncryptedPayload)
parse_present (refuse e) = refuse e
parse_present (allow payload) = allow (some payload)

-- `trim` is the standard library's, and `to_string` is how `serde_json` prints a value.
module _ (trim : Text → Text) (to_string : Json → Text) where
  -- A text that must be there and is cut.
  short : Json → String → ℕ → String → Verdict Text
  short obj key n message = do
    value ← required (nonempty (trimmed_field trim obj key)) message
    allow (take_chars n value)

  parse_object : Json → Verdict EncryptedPayload
  unfolding short positive shortened
  parse_object obj = do
    v ← required (as_u64 (get_field obj "v")) "Encrypted payload missing version"
    unless (not (nat_beq v 2)) "Unsupported encrypted payload version"
    alg ← short obj "alg" max_encrypted_alg_len "Encrypted payload missing algorithm"
    iv ← short obj "iv" max_encrypted_iv_len "Encrypted payload missing iv"
    salt ← short obj "salt" max_encrypted_salt_len "Encrypted payload missing salt"
    n ← required (positive (as_u64 (get_field obj "n"))) "Encrypted payload missing ratchet counter"
    sender_device_id ←
        short obj "senderDeviceId" max_encrypted_device_id_len
          "Encrypted payload missing sender device"
    sender_signing_key ←
        required (as_object (get_field obj "senderSigningKey"))
          "Encrypted payload missing sender signing key"
    unless (ltb max_encrypted_signing_key_len (length (to_string sender_signing_key)))
        "Encrypted payload signing key too large"
    signature ←
        short obj "signature" max_encrypted_signature_len "Encrypted payload missing signature"
    ciphertext ←
        required (nonempty (trimmed_field trim obj "ciphertext"))
          "Encrypted payload missing ciphertext"
    unless (ltb max_encrypted_ciphertext_len (length ciphertext)) "Encrypted payload too large"
    allow record {
      v = 2;
      alg = alg;
      iv = iv;
      salt = salt;
      n = some n;
      sender_device_id = sender_device_id;
      sender_signing_key = some sender_signing_key;
      signature = signature;
      ciphertext = ciphertext;
      room_id = shortened max_encrypted_room_id_len (nonempty (trimmed_field trim obj "roomId"));
    }

  unfoldable pub parse_encrypted_payload : Option Json → Verdict (Option EncryptedPayload)
  unfolding parse_object parse_present
  parse_encrypted_payload none = allow none
  parse_encrypted_payload (some null) = allow none
  parse_encrypted_payload (some (object fields)) = parse_present (parse_object (object fields))
  parse_encrypted_payload (some _) = refuse "Encrypted payload must be an object"
