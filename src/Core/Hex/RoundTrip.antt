-- ===== src/Core/Hex/RoundTrip.antt =====
-- What `hex_decode` reads, and where it panics.
use lqxp.Common.{
  ℕ, ◌/◌, ◌%◌, ◌≤◌, ◌<◌, ◌≡◌, refl, ap, ◌∙◌, true, false, some, List, [], ◌∷◌, ◌++◌, arith, length,
  Text, text_Eq,
}
use mathlib.Core.List.{foldr, append-nil}
use lqxp.Core.Hex.{
  hex_digit, hex_encode, to_digit, from_str_radix, is_continuation, starts_inside, Decoded, decoded,
  slice_panic, prepend, decode_pairs, hex_decode,
}

-- Every element is a byte.
abbrev pub Bytes : List ℕ → Type 0
Bytes [] = Unit
Bytes (b ∷ bytes) = (b < 256) × Bytes bytes

digit_back : (d : ℕ) → d < 16 → to_digit (hex_digit d) ≡ some d
unfolding to_digit
digit_back d h = ground arith

digit_range : (d : ℕ) → d < 16 → (hex_digit d < 128) × (b'0' ≤ hex_digit d)
digit_range d h = ground arith

encoded_start : (bytes : List ℕ) → Bytes bytes → starts_inside (hex_encode bytes) ≡ false
unfolding hex_encode
encoded_start [] h = refl
encoded_start (b ∷ bytes) h = ground (arith, digit_range (b / 16) (omega arith))

even_length : (bytes : List ℕ) → length (hex_encode bytes) % 2 ≡ 0
unfolding hex_encode
even_length [] = refl
even_length (b ∷ bytes) = omega (arith, even_length bytes)

pair_back : (b : ℕ) → b < 256 → from_str_radix (hex_digit (b / 16)) (hex_digit (b % 16)) ≡ some b
unfolding from_str_radix
pair_back b h = ground (
  arith,
  digit_back (b / 16) (omega arith),
  digit_back (b % 16) (omega arith),
  digit_range (b / 16) (omega arith),
)

decode_step :
    (a b v : ℕ) (rest : Text)
    → is_continuation a ≡ false
    → starts_inside rest ≡ false
    → from_str_radix a b ≡ some v
    → decode_pairs (a ∷ b ∷ rest) ≡ prepend v (decode_pairs rest)
unfolding decode_pairs
decode_step a b v rest h k r = rw (h, k, r)

-- Well-formed pairs in front are read first.
decode_behind :
    (bytes : List ℕ) (rest : Text)
    → Bytes bytes
    → starts_inside rest ≡ false
    → (starts_inside (hex_encode bytes ++ rest) ≡ false)
      × (length (hex_encode bytes ++ rest) % 2 ≡ length rest % 2)
      × ((d : Decoded)
          → decode_pairs rest ≡ d
          → decode_pairs (hex_encode bytes ++ rest) ≡ foldr prepend d bytes)
unfolding hex_encode
decode_behind [] rest h s = (s, refl, λ d e. e)
decode_behind (b ∷ bytes) rest (small, more) s =
    let (start, even, back) = decode_behind bytes rest more s in
    let low = digit_range (b / 16) (omega arith) in
    let plain : is_continuation (hex_digit (b / 16)) ≡ false = ground (arith, low) in
    (
      plain,
      omega (arith, even),
      λ d e.
          decode_step _ _ b (hex_encode bytes ++ rest) plain start (pair_back b small)
          ∙ ap (prepend b) (back d e),
    )

foldr_decoded : (bytes : List ℕ) → foldr prepend (decoded (some [])) bytes ≡ decoded (some bytes)
unfolding prepend
foldr_decoded [] = refl
foldr_decoded (b ∷ bytes) = rw (foldr_decoded bytes)

foldr_panic : (bytes : List ℕ) → foldr prepend slice_panic bytes ≡ slice_panic
unfolding prepend
foldr_panic [] = refl
foldr_panic (b ∷ bytes) = rw (foldr_panic bytes)

hex_decode_even : (value : Text) → length value % 2 ≡ 0 → hex_decode value ≡ decode_pairs value
unfolding hex_decode
hex_decode_even value e = rw e

-- A list of bytes, numbers below 256, that is printed in hex is read back.
pub hex_decode-hex_encode :
    (bytes : List ℕ) → Bytes bytes → hex_decode (hex_encode bytes) ≡ decoded (some bytes)
unfolding hex_decode
hex_decode-hex_encode bytes h =
    let (start, even, back) = decode_behind bytes [] h refl in
    rw (← append-nil (hex_encode bytes)) (
      ground
        (arith, even, back (decoded (some [])) (unfold decode_pairs in refl), foldr_decoded bytes))

straddled :
    (a b c d : ℕ) (rest : Text)
    → is_continuation c ≡ true
    → decode_pairs (a ∷ b ∷ c ∷ d ∷ rest) ≡ slice_panic
unfolding decode_pairs
straddled a b c d rest t = ground arith

-- `hex_decode` panics on a text of even length that is the hex of some bytes, then a pair whose
-- first byte starts a character, then a pair whose first byte continues one, then anything.
pub hex_decode_panics :
    (bytes : List ℕ) (a b c d : ℕ) (rest : Text)
    → Bytes bytes
    → is_continuation a ≡ false
    → is_continuation c ≡ true
    → length rest % 2 ≡ 0
    → hex_decode (hex_encode bytes ++ a ∷ b ∷ c ∷ d ∷ rest) ≡ slice_panic
hex_decode_panics bytes a b c d rest h s t e =
    let (start, even, back) = decode_behind bytes (a ∷ b ∷ c ∷ d ∷ rest) h s in
    hex_decode_even (hex_encode bytes ++ a ∷ b ∷ c ∷ d ∷ rest) (omega (arith, even))
    ∙ back slice_panic (straddled a b c d rest t)
    ∙ foldr_panic bytes
