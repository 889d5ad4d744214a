-- ===== src/Examples/Account.antt =====
-- Runs on image files and on the names of files.
use lqxp.Common.{
  ℕ, ◌≤◌, ◌≡◌, refl, true, some, [], ◌∷◌, ◌++◌, ltb, nat_beq, length, filter, all, contains, Text,
  text, text_eq, split, is_ascii_alphanumeric, to_ascii_lowercase, text_Eq,
}
use lqxp.Account.Names.{Unicode}
use lqxp.Account.Images.{png_signature, strip_image_metadata, jpeg_loop, is_png_metadata}
use lqxp.Account.Images.Png.{Chunk, file_of, bytes_of, is_inner, is_end, is_shown, strip_png_lem}
use lqxp.Account.Images.Jpeg.{jpeg_loop_terminates}
use lqxp.Account.Files.{sanitize_filename, extension_or, stored_file_id}
use lqxp.Account.Files.Safety.{is_safe, attachment_name_safe}

abbrev pub ascii : Unicode
ascii = record {
  trim = λ s. s;
  to_lowercase = to_ascii_lowercase;
  is_alphanumeric = λ ch. all is_ascii_alphanumeric ch;
  is_control = λ ch. all (λ b. ltb b 32) ch;
  is_whitespace = λ ch. all (λ b. nat_beq b b' ') ch;
  split_whitespace = λ s. split b' ' s;
}

abbrev chunk : ℕ → ℕ → ℕ → ℕ → Text → Chunk
chunk a b c d data_ = record {
  size0 = 0;
  size1 = 0;
  size2 = 0;
  size3 = length data_;
  type0 = a;
  type1 = b;
  type2 = c;
  type3 = d;
  data_ = data_;
  crc0 = 1;
  crc1 = 2;
  crc2 = 3;
  crc3 = 4;
}

abbrev header : Chunk
header = chunk b'I' b'H' b'D' b'R' (5 ∷ [])

abbrev position : Chunk
position = chunk b'e' b'X' b'I' b'f' (7 ∷ 8 ∷ [])

abbrev the_end : Chunk
the_end = chunk b'I' b'E' b'N' b'D' []

inner_chunks : all is_inner (header ∷ position ∷ []) ≡ true
unfolding all text_eq text
inner_chunks = refl

ends : is_end the_end ≡ true
unfolding text_eq text
ends = refl

-- The position is taken out of a file, and what follows its end.
strip_png_lem_example :
    strip_image_metadata
      (png_signature ++ (file_of (header ∷ position ∷ []) ++ (bytes_of the_end ++ 9 ∷ [])))
      (text "image/png")
    ≡ png_signature ++ (file_of (filter is_shown (header ∷ position ∷ [])) ++ bytes_of the_end)
strip_png_lem_example =
    strip_png_lem (header ∷ position ∷ []) the_end (9 ∷ []) inner_chunks refl ends

only_header : filter is_shown (header ∷ position ∷ []) ≡ header ∷ []
unfolding filter is_png_metadata contains text text_eq
only_header = refl

abbrev segments : Text
segments = 0xff ∷ 0xe1 ∷ 0 ∷ 3 ∷ 9 ∷ 0xff ∷ 0xda ∷ 7 ∷ []

jpeg_loop_terminates_example :
    (out : Text) × ((fuel : ℕ) → length segments ≤ fuel → jpeg_loop fuel segments ≡ some out)
jpeg_loop_terminates_example = jpeg_loop_terminates segments

uuid_safe : is_safe (text "0af3") ≡ true
unfolding all text
uuid_safe = refl

attachment_name_safe_example :
    is_safe (
      stored_file_id ascii
        (text "0af3")
        (extension_or (sanitize_filename ascii (text "x./../y") (text "file") 128) []))
    ≡ true
attachment_name_safe_example =
    attachment_name_safe ascii (λ s h. h) (text "0af3") (text "x./../y") 128 uuid_safe
