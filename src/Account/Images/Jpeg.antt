-- ===== src/Account/Images/Jpeg.antt =====
-- The termination of the loop over the segments of a JPEG file.
use lqxp.Common.{
  ℕ, zero, suc, ◌+◌, ◌*◌, ◌≤◌, ◌≡◌, refl, ap, ◌∙◌, inl, inr, true, Option, none, some, [], ◌∷◌,
  arith, nat_beq, if◌then◌else◌, Bool-cases, Option-cases, length, drop, length-drop, is_some, Text,
  text_Eq,
}
use lqxp.Account.Images.{
  skip_ff, jpeg_marker, jpeg_segment, jpeg_loop, byte_at, after_bytes, strip_jpeg,
}

length-skip_ff : (bytes : Text) → length (skip_ff bytes) ≤ length bytes
unfolding skip_ff
length-skip_ff [] = omega arith
length-skip_ff (b ∷ s) = ground (arith, length-skip_ff s)

marker_same :
    (marker : ℕ) (bytes : Text) (f g : ℕ → Option Text)
    → ((n : ℕ) → f n ≡ g n)
    → jpeg_marker marker bytes f ≡ jpeg_marker marker bytes g
unfolding jpeg_marker
marker_same marker bytes f g h = rw (h (byte_at 0 bytes * 256 + byte_at 1 bytes)) refl

segment_same :
    (b : ℕ) (bytes left : Text) (f g : Text → Option Text)
    → ((rest : Text) → length rest ≤ length left → f rest ≡ g rest)
    → jpeg_segment b bytes left f ≡ jpeg_segment b bytes left g
unfolding jpeg_segment
segment_same b bytes [] f g h = refl
segment_same b bytes (marker ∷ left) f g h =
    ap (λ x. if nat_beq b 0xff then x else some (b ∷ bytes))
      (marker_same marker left (λ n. f (drop n left)) (λ n. g (drop n left))
        (λ n. h (drop n left) (omega (arith, length-drop n left))))

-- Enough fuel is as good as any other.
loop_same :
    (fuel more : ℕ) (bytes : Text)
    → length bytes ≤ fuel
    → length bytes ≤ more
    → jpeg_loop fuel bytes ≡ jpeg_loop more bytes
unfolding jpeg_loop
loop_same zero zero bytes h k = refl
loop_same zero (suc more) [] h k = refl
loop_same zero (suc more) (b ∷ bytes) h k = ground arith
loop_same (suc fuel) zero [] h k = refl
loop_same (suc fuel) zero (b ∷ bytes) h k = ground arith
loop_same (suc fuel) (suc more) [] h k = refl
loop_same (suc fuel) (suc more) (b ∷ bytes) h k =
    segment_same b bytes (skip_ff bytes) (λ rest. jpeg_loop fuel rest) (λ rest. jpeg_loop more rest)
      (λ rest q.
        loop_same fuel more rest (omega (arith, length-skip_ff bytes))
          (omega (arith, length-skip_ff bytes)))

marker_some :
    (marker : ℕ) (bytes : Text) (f : ℕ → Option Text)
    → ((n : ℕ) → is_some (f n) ≡ true)
    → is_some (jpeg_marker marker bytes f) ≡ true
unfolding jpeg_marker after_bytes
marker_some marker bytes f h = ground (arith, h (byte_at 0 bytes * 256 + byte_at 1 bytes))

segment_some :
    (b : ℕ) (bytes left : Text) (f : Text → Option Text)
    → ((rest : Text) → length rest ≤ length left → is_some (f rest) ≡ true)
    → is_some (jpeg_segment b bytes left f) ≡ true
unfolding jpeg_segment
segment_some b bytes [] f h = refl
segment_some b bytes (marker ∷ left) f h = elim (Bool-cases (nat_beq b 0xff)) [
  | inl e ↦ rw e (
      marker_some marker left (λ n. f (drop n left))
        (λ n. h (drop n left) (omega (arith, length-drop n left))))
  | inr e ↦ rw e refl
]

-- The fuel does not run out.
loop_some : (fuel : ℕ) (bytes : Text) → length bytes ≤ fuel → is_some (jpeg_loop fuel bytes) ≡ true
unfolding jpeg_loop
loop_some zero [] h = refl
loop_some (suc fuel) [] h = refl
loop_some zero (b ∷ bytes) h = ground arith
loop_some (suc fuel) (b ∷ bytes) h =
    segment_some b bytes (skip_ff bytes) (λ rest. jpeg_loop fuel rest)
      (λ rest q. loop_some fuel rest (omega (arith, length-skip_ff bytes)))

-- The loop over the segments of a JPEG file ends on any bytes: it has a result, which it gives
-- within as many rounds as there are bytes, and which more fuel does not change.
pub jpeg_loop_terminates :
    (bytes : Text)
    → (out : Text) × ((fuel : ℕ) → length bytes ≤ fuel → jpeg_loop fuel bytes ≡ some out)
jpeg_loop_terminates bytes = elim (Option-cases (jpeg_loop (length bytes) bytes)) [
  | inl e ↦ ground (arith, loop_some (length bytes) bytes (omega arith))
  | inr (out, e) ↦ (out, λ fuel h. loop_same fuel (length bytes) bytes h (omega arith) ∙ e)
]

-- So `strip_jpeg` has a result on every file.
strip_jpeg_some : (bytes : Text) (rest : Option Text) → is_some (strip_jpeg bytes rest) ≡ true
unfolding strip_jpeg after_bytes
strip_jpeg_some bytes none = refl
strip_jpeg_some bytes (some rest) = ground (arith, loop_some (length rest) rest)
