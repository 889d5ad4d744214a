-- ===== src/Core/Hex.antt =====
-- `hex_encode` and `hex_decode` of core/pqc.rs (services/phantom.rs has the same `decode_hex`).
pub mod RoundTrip
use lqxp.Common.{
  ℕ, ◌+◌, ◌-◌, ◌*◌, ◌/◌, ◌%◌, Bool, false, ◌&&◌, ◌||◌, Option, none, some, List, [], ◌∷◌, map, ltb,
  leb, nat_beq, if◌then◌else◌, length, Text, is_ascii_digit, text_Eq,
}

-- `format!("{digit:x}")` for a digit below 16.
abbrev hex_digit : ℕ → ℕ
hex_digit d = if ltb d 10 then b'0' + d else b'a' + (d - 10)

unfoldable pub hex_encode : List ℕ → Text
hex_encode [] = []
hex_encode (b ∷ bytes) = hex_digit (b / 16) ∷ hex_digit (b % 16) ∷ hex_encode bytes

-- `char::to_digit(16)`.
unfoldable pub to_digit : ℕ → Option ℕ
to_digit c =
    if is_ascii_digit c
    then some (c - b'0')
    else if leb b'a' c && leb c b'f'
    then some (c - b'a' + 10)
    else if leb b'A' c && leb c b'F'
    then some (c - b'A' + 10)
    else none

two_digits : Option ℕ → Option ℕ → Option ℕ
two_digits (some high) (some low) = some (high * 16 + low)
two_digits _ _ = none

-- `u8::from_str_radix(_, 16)` of two bytes: a leading `+` is a sign.
from_str_radix : ℕ → ℕ → Option ℕ
unfolding two_digits to_digit
from_str_radix a b = if nat_beq a b'+' then to_digit b else two_digits (to_digit a) (to_digit b)

-- A byte inside a character: slicing there panics.
abbrev pub is_continuation : ℕ → Bool
is_continuation b = leb 128 b && ltb b 192

abbrev starts_inside : Text → Bool
starts_inside [] = false
starts_inside (b ∷ rest) = is_continuation b

-- A slice that panics, or the bytes so far.
pub data Decoded : Type 0 where
  decoded : Option (List ℕ) → Decoded
  slice_panic : Decoded

prepend : ℕ → Decoded → Decoded
prepend b (decoded (some bytes)) = decoded (some (b ∷ bytes))
prepend b (decoded none) = decoded none
prepend b slice_panic = slice_panic

-- The lazy `map` and `collect` over the indices 0, 2, 4, ….
decode_pairs : Text → Decoded
unfolding from_str_radix prepend
decode_pairs (a ∷ b ∷ rest) =
    let more = decode_pairs rest in
    if is_continuation a || starts_inside rest
    then slice_panic
    else elim (from_str_radix a b) [ none ↦ decoded none | some v ↦ prepend v more ]
decode_pairs _ = decoded (some [])

unfoldable pub hex_decode : Text → Decoded
unfolding decode_pairs
hex_decode value = if nat_beq (length value % 2) 0 then decode_pairs value else decoded none
