-- ===== src/Chat/Encrypted/Bounds.antt =====
-- The limits of an accepted encrypted payload.
use lqxp.Common.{
  ℕ, ◌≤◌, ◌<◌, ◌≡◌, refl, sym, inl, inr, Bool, true, false, not, Option, none, some, arith, ltb,
  nat_beq, Bool-cases, length, is_empty, Text, text_Eq,
}
use Prim.Native.String.{String}
use lqxp.Common.Chars.{take_chars, char_count, char_count-take_chars, take_chars_nonempty}
use lqxp.Common.Json.{Json, null, object, get_field, as_u64, as_object, trimmed_field, nonempty}
use lqxp.Chat.Record.{EncryptedPayload}
use lqxp.Room.Decide.{Verdict, allow, refuse}
use lqxp.Chat.Encrypted.{
  max_encrypted_alg_len, max_encrypted_iv_len, max_encrypted_salt_len, max_encrypted_device_id_len,
  max_encrypted_signature_len, max_encrypted_signing_key_len, max_encrypted_ciphertext_len,
  max_encrypted_room_id_len, ◌>>=◌, ◌>>◌, required, unless, positive, shortened, short,
  parse_object, parse_present, parse_encrypted_payload,
}

-- A text is not empty and has at most so many characters.
pub record IsShort (n : ℕ) (s : Text) : Type 0 where
  pub present : is_empty s ≡ false
  pub at_most : char_count s ≤ n

pub record IsWithinLimits (p : EncryptedPayload) (key_size : Json → ℕ) : Type 0 where
  pub version : p.v ≡ 2
  pub alg_ok : IsShort max_encrypted_alg_len p.alg
  pub iv_ok : IsShort max_encrypted_iv_len p.iv
  pub salt_ok : IsShort max_encrypted_salt_len p.salt
  pub counter_ok : (n : ℕ) × (p.n ≡ some n) × (0 < n)
  pub device_ok : IsShort max_encrypted_device_id_len p.sender_device_id
  pub key_ok :
      (k : Json) × (p.sender_signing_key ≡ some k) × (key_size k ≤ max_encrypted_signing_key_len)
  pub signature_ok : IsShort max_encrypted_signature_len p.signature
  pub ciphertext_present : is_empty p.ciphertext ≡ false
  pub ciphertext_ok : length p.ciphertext ≤ max_encrypted_ciphertext_len
  pub room_ok : (room : Text) → p.room_id ≡ some room → IsShort max_encrypted_room_id_len room

-- What a chain of checks that accepts has accepted first.
bound :
    {A B : Type 0} (m : Verdict A) (f : A → Verdict B) {b : B}
    → (m >>= f) ≡ allow b
    → (a : A) × (m ≡ allow a) × (f a ≡ allow b)
bound (refuse e) f h = cc
bound (allow a) f h = (a, refl, h)

checked :
    {B : Type 0} (c : Bool) (message : String) (k : Verdict B) {b : B}
    → (unless c message >> k) ≡ allow b
    → (c ≡ false) × (k ≡ allow b)
checked true message k h = cc
checked false message k h = (refl, h)

nonempty-some : (o : Option Text) (s : Text) → nonempty o ≡ some s → is_empty s ≡ false
unfolding nonempty
nonempty-some none s h = cc
nonempty-some (some t) s h = ground arith

required-some :
    {A : Type 0} (o : Option A) (message : String) {a : A}
    → required o message ≡ allow a
    → o ≡ some a
required-some none message h = cc
required-some (some b) message h = cc

positive-some : (o : Option ℕ) (n : ℕ) → positive o ≡ some n → 0 < n
unfolding positive
positive-some none n h = cc
positive-some (some m) n h = ground arith

shortened-IsShort :
    (n : ℕ) (o : Option Text) (s : Text) → 0 < n → shortened n (nonempty o) ≡ some s → IsShort n s
unfolding shortened nonempty
shortened-IsShort n none s k h = cc
shortened-IsShort n (some t) s k h = elim (Bool-cases (is_empty t)) [
  | inl e ↦ ground arith
  | inr e ↦
      let eq : s ≡ take_chars n t = ground arith in
      rw eq (record { present = take_chars_nonempty n t e k; at_most = char_count-take_chars n t })
]

allow_injective : {A : Type 0} {a b : A} → allow a ≡ allow b → a ≡ b
allow_injective h = cc

present_inv :
    (v : Verdict EncryptedPayload) (p : EncryptedPayload)
    → parse_present v ≡ allow (some p)
    → v ≡ allow p
unfolding parse_present
present_inv (refuse e) p h = cc
present_inv (allow q) p h = cc

module _ (trim : Text → Text) (to_string : Json → Text) where
  short-IsShort :
      (obj : Json) (key : String) (n : ℕ) (message : String) {s : Text}
      → 0 < n
      → short trim to_string obj key n message ≡ allow s
      → IsShort n s
  unfolding short
  short-IsShort obj key n message {s = s} k h =
      let (value, got, cut) =
        bound (required (nonempty (trimmed_field trim obj key)) message)
          (λ value. allow (take_chars n value)) h in
      let here = nonempty-some (trimmed_field trim obj key) value (required-some _ message got) in
      let eq : s ≡ take_chars n value = cc in
      rw eq (record {
        present = take_chars_nonempty n value here k;
        at_most = char_count-take_chars n value;
      })

  abbrev built_from : Text → Text → Text → ℕ → Text → Json → Text → Text → Json → EncryptedPayload
  unfolding shortened
  built_from alg iv salt n device key signature ciphertext obj = record {
    v = 2;
    alg = alg;
    iv = iv;
    salt = salt;
    n = some n;
    sender_device_id = device;
    sender_signing_key = some key;
    signature = signature;
    ciphertext = ciphertext;
    room_id = shortened max_encrypted_room_id_len (nonempty (trimmed_field trim obj "roomId"));
  }

  object_limits :
      (obj : Json) {p : EncryptedPayload}
      → parse_object trim to_string obj ≡ allow p
      → IsWithinLimits p (λ k. length (to_string k))
  unfolding parse_object
  object_limits obj {p = p} h0 =
      let (v, v_eq, h1) = bound (required (as_u64 (get_field obj "v")) _) _ h0 in
      let (v_ok, h2) = checked (not (nat_beq v 2)) _ _ h1 in
      let (alg, alg_eq, h3) = bound (short trim to_string obj "alg" max_encrypted_alg_len _) _ h2 in
      let (iv, iv_eq, h4) = bound (short trim to_string obj "iv" max_encrypted_iv_len _) _ h3 in
      let (salt, salt_eq, h5) =
        bound (short trim to_string obj "salt" max_encrypted_salt_len _) _ h4 in
      let (n, n_eq, h6) = bound (required (positive (as_u64 (get_field obj "n"))) _) _ h5 in
      let (device, device_eq, h7) =
        bound (short trim to_string obj "senderDeviceId" max_encrypted_device_id_len _) _ h6 in
      let (key, key_eq, h8) =
        bound (required (as_object (get_field obj "senderSigningKey")) _) _ h7 in
      let (key_small, h9) =
        checked (ltb max_encrypted_signing_key_len (length (to_string key))) _ _ h8 in
      let (signature, signature_eq, h10) =
        bound (short trim to_string obj "signature" max_encrypted_signature_len _) _ h9 in
      let (ciphertext, ciphertext_eq, h11) =
        bound (required (nonempty (trimmed_field trim obj "ciphertext")) _) _ h10 in
      let (small, h12) = checked (ltb max_encrypted_ciphertext_len (length ciphertext)) _ _ h11 in
      let built : p ≡ built_from alg iv salt n device key signature ciphertext obj =
        sym (allow_injective h12) in
      rw built (record {
        version = refl;
        alg_ok = short-IsShort obj "alg" max_encrypted_alg_len _ (omega arith) alg_eq;
        iv_ok = short-IsShort obj "iv" max_encrypted_iv_len _ (omega arith) iv_eq;
        salt_ok = short-IsShort obj "salt" max_encrypted_salt_len _ (omega arith) salt_eq;
        counter_ok =
            (n, refl, positive-some (as_u64 (get_field obj "n")) n (required-some _ _ n_eq));
        device_ok =
            short-IsShort obj "senderDeviceId" max_encrypted_device_id_len _ (omega arith)
              device_eq;
        key_ok = (key, refl, ground arith);
        signature_ok =
            short-IsShort obj "signature" max_encrypted_signature_len _ (omega arith) signature_eq;
        ciphertext_present =
            nonempty-some (trimmed_field trim obj "ciphertext") ciphertext
              (required-some _ _ ciphertext_eq);
        ciphertext_ok = ground arith;
        room_ok = λ room e.
            shortened-IsShort max_encrypted_room_id_len (trimmed_field trim obj "roomId") room
              (omega arith) e;
      })

  -- An encrypted payload that is accepted has version 2, a positive counter, and an algorithm, iv,
  -- salt, device and signature that are present and within their limits of characters; the room it
  -- names, if any, is so too. The ciphertext is present, and it and the printed key are within their
  -- limits of bytes.
  pub parse_encrypted_payload_limits :
      (raw : Option Json) (p : EncryptedPayload)
      → parse_encrypted_payload trim to_string raw ≡ allow (some p)
      → IsWithinLimits p (λ k. length (to_string k))
  unfolding parse_encrypted_payload
  parse_encrypted_payload_limits none p h = cc
  parse_encrypted_payload_limits (some null) p h = cc
  parse_encrypted_payload_limits (some (object fields)) p h =
      object_limits (object fields) (present_inv (parse_object trim to_string (object fields)) p h)
  parse_encrypted_payload_limits (some (Json.boolean b)) p h = cc
  parse_encrypted_payload_limits (some (Json.number n)) p h = cc
  parse_encrypted_payload_limits (some (Json.other_number s)) p h = cc
  parse_encrypted_payload_limits (some (Json.string s)) p h = cc
  parse_encrypted_payload_limits (some (Json.array xs)) p h = cc
