-- ===== src/Account/Images.antt =====
-- `strip_image_metadata` of services/user.rs. A loop's index into the bytes is what is left of them.
pub mod Png
pub mod Jpeg
pub mod Detect
use lqxp.Common.{
  ℕ, zero, suc, ◌+◌, ◌-◌, ◌*◌, ◌/◌, Bool, ◌||◌, not, Option, none, some, [], ◌∷◌, ◌++◌, ltb,
  nat_beq, if◌then◌else◌, ◌==◌, length, get_elem?, take, drop, contains, unwrap_or, Text, text,
  after, text_Eq,
}
use lqxp.Common.Chars.{strip_prefix}

-- A byte, and 0 past the end, where the program does not look.
abbrev pub byte_at : ℕ → Text → ℕ
byte_at i s = unwrap_or (get_elem? s i) 0

-- `u32::from_be_bytes`
unfoldable pub be32 : Text → ℕ
be32 s = ((byte_at 0 s * 256 + byte_at 1 s) * 256 + byte_at 2 s) * 256 + byte_at 3 s

abbrev pub png_signature : Text
png_signature = 0x89 ∷ b'P' ∷ b'N' ∷ b'G' ∷ 13 ∷ 10 ∷ 26 ∷ 10 ∷ []

unfoldable pub is_png_metadata : Text → Bool
unfolding text
is_png_metadata chunk_type =
    contains
      (text "eXIf"
        ∷ text "tEXt"
        ∷ text "zTXt"
        ∷ text "iTXt"
        ∷ text "tIME"
        ∷ text "pHYs"
        ∷ text "iCCP"
        ∷ [])
      chunk_type

-- The loop over the chunks; every round uses up at least twelve bytes.
unfoldable pub png_loop : ℕ → Text → Text
unfolding is_png_metadata be32 text
png_loop zero bytes = []
png_loop (suc fuel) bytes =
    let chunk_type = take 4 (drop 4 bytes) in
    let total_chunk_len = 12 + be32 bytes in
    let kept = if is_png_metadata chunk_type then [] else take total_chunk_len bytes in
    let rest = png_loop fuel (drop total_chunk_len bytes) in
    if ltb (length bytes) 12
    then []
    else if ltb (length bytes) total_chunk_len
    then []
    else if chunk_type == text "IEND"
    then kept
    else kept ++ rest

strip_png : Text → Option Text → Text
unfolding png_loop
strip_png bytes none = bytes
strip_png bytes (some rest) = png_signature ++ png_loop (length rest) rest

skip_ff : Text → Text
skip_ff [] = []
skip_ff (b ∷ s) = if nat_beq b 0xff then skip_ff s else b ∷ s

unfoldable pub is_jpeg_metadata : ℕ → Bool
is_jpeg_metadata marker =
    nat_beq marker 0xe1 || (nat_beq marker 0xe2 || (nat_beq marker 0xed || nat_beq marker 0xfe))

-- What is written first, and then what the rest of the loop writes.
after_bytes : Text → Option Text → Option Text
after_bytes written none = none
after_bytes written (some rest) = some (written ++ rest)

-- After a marker: `bytes` is what follows it, `loop_after` the loop on what follows its segment.
jpeg_marker : ℕ → Text → (ℕ → Option Text) → Option Text
unfolding is_jpeg_metadata after_bytes
jpeg_marker marker bytes loop_after =
    let len = byte_at 0 bytes * 256 + byte_at 1 bytes in
    if nat_beq marker 0xd9
    then some (0xff ∷ 0xd9 ∷ [])
    else if nat_beq marker 0xda
    then some (0xff ∷ 0xda ∷ bytes)
    else if ltb (length bytes) 2
    then some []
    else if ltb len 2 || ltb (length bytes) len
    then some []
    else if is_jpeg_metadata marker
    then loop_after len
    else after_bytes (0xff ∷ marker ∷ take len bytes) (loop_after len)

-- At a byte `b`, with `bytes` after it and `left` after the run of `0xff`.
jpeg_segment : ℕ → Text → Text → (Text → Option Text) → Option Text
unfolding jpeg_marker
jpeg_segment b bytes [] loop = some (if nat_beq b 0xff then [] else b ∷ bytes)
jpeg_segment b bytes (marker ∷ left) loop =
    if nat_beq b 0xff
    then jpeg_marker marker left (λ len. loop (drop len left))
    else some (b ∷ bytes)

-- The loop over the segments; `none` where the fuel runs out before the loop ends.
unfoldable pub jpeg_loop : ℕ → Text → Option Text
unfolding skip_ff jpeg_segment
jpeg_loop fuel [] = some []
jpeg_loop zero (b ∷ bytes) = none
jpeg_loop (suc fuel) (b ∷ bytes) =
    jpeg_segment b bytes (skip_ff bytes) (λ rest. jpeg_loop fuel rest)

-- `none` where the loop does not end within as many rounds as there are bytes.
strip_jpeg : Text → Option Text → Option Text
unfolding jpeg_loop after_bytes
strip_jpeg bytes none = some bytes
strip_jpeg bytes (some rest) =
    if ltb (length bytes) 4
    then some bytes
    else after_bytes (0xff ∷ 0xd8 ∷ []) (jpeg_loop (length rest) rest)

unfoldable pub strip_image_metadata : Text → Text → Text
unfolding strip_png strip_jpeg strip_prefix text
strip_image_metadata bytes mime_type =
    if (mime_type == text "image/png") || (mime_type == text "image/apng")
    then strip_png bytes (strip_prefix png_signature bytes)
    else if (mime_type == text "image/jpeg") || (mime_type == text "image/jpg")
    then unwrap_or (strip_jpeg bytes (strip_prefix (0xff ∷ 0xd8 ∷ []) bytes)) []
    else bytes
