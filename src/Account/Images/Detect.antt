-- ===== src/Account/Images/Detect.antt =====
-- `detect_profile_image` and `jpeg_dimensions` of websocket/protocol.rs.
use lqxp.Common.{
  ℕ, zero, suc, ◌+◌, ◌*◌, Bool, ◌&&◌, ◌||◌, not, Option, none, some, [], ◌∷◌, ltb, leb, nat_beq,
  if◌then◌else◌, ◌==◌, length, is_empty, drop, is_some, Text, text, to_ascii_lowercase, text_Eq,
}
use lqxp.Common.Chars.{strip_prefix}
use lqxp.Room.Decide.{Verdict, allow, refuse}
use lqxp.Account.Images.{byte_at, be32, png_signature, skip_ff}

-- The type, the width and the height.
pub record Detected : Type 0 where
  pub mime_type : Text
  pub width : ℕ
  pub height : ℕ

abbrev be16 : ℕ → Text → ℕ
be16 i s = byte_at i s * 256 + byte_at (i + 1) s

abbrev le16 : ℕ → Text → ℕ
le16 i s = byte_at i s + byte_at (i + 1) s * 256

is_frame_marker : ℕ → Bool
is_frame_marker marker =
    leb 0xc0 marker
    && (leb marker 0xcf
        && not (nat_beq marker 0xc4 || (nat_beq marker 0xc8 || nat_beq marker 0xcc)))

-- After a marker, on the bytes that follow it; `rest` is the loop on what follows the segment.
frame_size : ℕ → Text → (ℕ → Option (ℕ × ℕ)) → Option (ℕ × ℕ)
unfolding is_frame_marker
frame_size marker bytes rest =
    let len = be16 0 bytes in
    if ltb (length bytes) 2
    then none
    else if ltb len 2 || ltb (length bytes) len
    then none
    else if is_frame_marker marker
    then (if ltb len 7 || ltb (length bytes) 7 then none else some (be16 5 bytes, be16 3 bytes))
    else rest len

after_run : Text → (Text → Option (ℕ × ℕ)) → Option (ℕ × ℕ)
unfolding frame_size
after_run [] loop = none
after_run (marker ∷ bytes) loop =
    if nat_beq marker 0xd8 || (nat_beq marker 0xd9 || nat_beq marker 0x01)
    then loop bytes
    else frame_size marker bytes (λ len. loop (drop len bytes))

-- The loop, on the bytes left; every round uses up at least one.
jpeg_size : ℕ → Text → Option (ℕ × ℕ)
unfolding after_run skip_ff
jpeg_size zero bytes = none
jpeg_size (suc fuel) [] = none
jpeg_size (suc fuel) (b ∷ bytes) =
    if leb (length (b ∷ bytes)) 9
    then none
    else if nat_beq b 0xff
    then after_run (skip_ff bytes) (λ left. jpeg_size fuel left)
    else jpeg_size fuel bytes

jpeg_dimensions : Text → Verdict (ℕ × ℕ)
unfolding jpeg_size
jpeg_dimensions bytes = elim (jpeg_size (length bytes) (drop 2 bytes)) [
  | none ↦ refuse "JPEG dimensions are invalid"
  | some size ↦ allow size
]

-- The declared type is empty or one of two.
declares : Text → Text → Text → Bool
declares declared a b = is_empty declared || (declared == a || declared == b)

starts_with : Text → Text → Bool
unfolding strip_prefix
starts_with prefix bytes = is_some (strip_prefix prefix bytes)

detected : Text → Verdict (ℕ × ℕ) → Verdict Detected
detected mime_type (refuse e) = refuse e
detected mime_type (allow (width, height)) =
    allow record { mime_type = mime_type; width = width; height = height }

unfoldable pub detect_profile_image : Text → Text → Verdict Detected
unfolding detected declares starts_with jpeg_dimensions text be32
detect_profile_image bytes declared_mime =
    let declared = to_ascii_lowercase declared_mime in
    if leb 24 (length bytes) && starts_with png_signature bytes
    then (if declares declared (text "image/png") (text "image/apng")
        then detected (text "image/png") (allow (be32 (drop 16 bytes), be32 (drop 20 bytes)))
        else refuse "Profile image MIME does not match PNG/APNG data")
    else if leb 10 (length bytes)
        && (starts_with (text "GIF87a") bytes || starts_with (text "GIF89a") bytes)
    then (if declares declared (text "image/gif") (text "image/gif")
        then detected (text "image/gif") (allow (le16 6 bytes, le16 8 bytes))
        else refuse "Profile image MIME does not match GIF data")
    else if leb 4 (length bytes) && starts_with (0xff ∷ 0xd8 ∷ []) bytes
    then (if declares declared (text "image/jpeg") (text "image/jpg")
        then detected (text "image/jpeg") (jpeg_dimensions bytes)
        else refuse "Profile image MIME does not match JPEG data")
    else refuse "Unsupported profile image codec"
