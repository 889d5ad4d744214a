-- ===== src/Account/Images/Png.antt =====
-- What `strip_image_metadata` leaves of a PNG file.
use lqxp.Common.{
  ℕ, zero, suc, ◌+◌, ◌*◌, ◌≤◌, ◌≡◌, refl, sym, ap, ◌∙◌, inl, inr, Bool, true, false, ◌&&◌, not,
  List, [], ◌∷◌, ◌++◌, arith, ltb, nat_beq, if◌then◌else◌, nat_beq_iff, Bool-cases, ◌==◌, eq_law,
  length, take, drop, filter, all, length-append, contains, Text, text, text_eq, text_Eq,
}
use mathlib.Core.List.{append_assoc}
use lqxp.Common.Chars.{strip_prefix}
use lqxp.Account.Images.{
  be32, png_signature, is_png_metadata, png_loop, strip_png, strip_image_metadata,
}

-- A chunk: four bytes of size, four of type, the data, and four of checksum.
pub record Chunk : Type 0 where
  pub size0 : ℕ
  pub size1 : ℕ
  pub size2 : ℕ
  pub size3 : ℕ
  pub type0 : ℕ
  pub type1 : ℕ
  pub type2 : ℕ
  pub type3 : ℕ
  pub data_ : Text
  pub crc0 : ℕ
  pub crc1 : ℕ
  pub crc2 : ℕ
  pub crc3 : ℕ

abbrev pub chunk_type : Chunk → Text
chunk_type c = c.type0 ∷ c.type1 ∷ c.type2 ∷ c.type3 ∷ []

abbrev pub bytes_of : Chunk → Text
bytes_of c =
    c.size0
    ∷ c.size1
    ∷ c.size2
    ∷ c.size3
    ∷ c.type0
    ∷ c.type1
    ∷ c.type2
    ∷ c.type3
    ∷ (c.data_ ++ c.crc0 ∷ c.crc1 ∷ c.crc2 ∷ c.crc3 ∷ [])

-- The size says how long the data is.
abbrev pub is_sized : Chunk → Bool
is_sized c = nat_beq (((c.size0 * 256 + c.size1) * 256 + c.size2) * 256 + c.size3) (length c.data_)

abbrev pub is_end : Chunk → Bool
is_end c = chunk_type c == text "IEND"

abbrev pub is_inner : Chunk → Bool
is_inner c = is_sized c && not (is_end c)

abbrev pub is_shown : Chunk → Bool
is_shown c = not (is_png_metadata (chunk_type c))

unfoldable pub file_of : List Chunk → Text
file_of [] = []
file_of (c ∷ cs) = bytes_of c ++ file_of cs

take_data :
    (data_ : Text) (a b c d : ℕ) (rest : Text)
    → take (length data_ + 4) ((data_ ++ a ∷ b ∷ c ∷ d ∷ []) ++ rest) ≡ data_ ++ a ∷ b ∷ c ∷ d ∷ []
take_data [] a b c d rest = refl
take_data (x ∷ data_) a b c d rest =
    let e : suc (length data_) + 4 ≡ suc (length data_ + 4) = omega arith in
    rw e (ap (λ l. x ∷ l) (take_data data_ a b c d rest))

drop_data :
    (data_ : Text) (a b c d : ℕ) (rest : Text)
    → drop (length data_ + 4) ((data_ ++ a ∷ b ∷ c ∷ d ∷ []) ++ rest) ≡ rest
drop_data [] a b c d rest = refl
drop_data (x ∷ data_) a b c d rest =
    let e : suc (length data_) + 4 ≡ suc (length data_ + 4) = omega arith in
    rw e (drop_data data_ a b c d rest)

abbrev past_header : ℕ → ℕ
past_header n = suc (suc (suc (suc (suc (suc (suc (suc (n + 4))))))))

take_chunk :
    (c : Chunk) (rest : Text) → take (12 + length c.data_) (bytes_of c ++ rest) ≡ bytes_of c
take_chunk c rest =
    let e : 12 + length c.data_ ≡ past_header (length c.data_) = omega arith in
    rw e (
      ap (λ l. c.size0 ∷ c.size1 ∷ c.size2 ∷ c.size3 ∷ c.type0 ∷ c.type1 ∷ c.type2 ∷ c.type3 ∷ l)
        (take_data c.data_ c.crc0 c.crc1 c.crc2 c.crc3 rest))

drop_chunk : (c : Chunk) (rest : Text) → drop (12 + length c.data_) (bytes_of c ++ rest) ≡ rest
drop_chunk c rest =
    let e : 12 + length c.data_ ≡ past_header (length c.data_) = omega arith in
    rw e (drop_data c.data_ c.crc0 c.crc1 c.crc2 c.crc3 rest)

length_chunk :
    (c : Chunk) (rest : Text) → length (bytes_of c ++ rest) ≡ 12 + length c.data_ + length rest
length_chunk c rest =
    let tail_ = c.crc0 ∷ c.crc1 ∷ c.crc2 ∷ c.crc3 ∷ [] in
    omega (arith, length-append (c.data_ ++ tail_) rest, length-append c.data_ tail_)

be32_chunk :
    (c : Chunk) (rest : Text) → is_sized c ≡ true → be32 (bytes_of c ++ rest) ≡ length c.data_
unfolding be32
be32_chunk c rest s = (nat_beq_iff _ _).0 s

abbrev kept : Chunk → Text
kept c = if is_png_metadata (chunk_type c) then [] else bytes_of c

-- One round on a chunk.
png_round :
    (fuel : ℕ) (c : Chunk) (rest : Text)
    → is_sized c ≡ true
    → png_loop (suc fuel) (bytes_of c ++ rest)
      ≡ (if is_end c then kept c else kept c ++ png_loop fuel rest)
unfolding png_loop
png_round fuel c rest s =
    let len = length_chunk c rest in
    let long : ltb (length (bytes_of c ++ rest)) 12 ≡ false = ground arith in
    let whole : ltb (length (bytes_of c ++ rest)) (12 + length c.data_) ≡ false = ground arith in
    rw (be32_chunk c rest s, long, whole, take_chunk c rest, drop_chunk c rest) refl

end_shown : (e : Chunk) → is_end e ≡ true → is_png_metadata (chunk_type e) ≡ false
unfolding is_png_metadata contains text text_eq
end_shown e t =
    let q : chunk_type e ≡ text "IEND" = (eq_law (chunk_type e) (text "IEND")).0 t in
    let known : is_png_metadata (text "IEND") ≡ false = refl in ap is_png_metadata q ∙ known

-- What is kept of a chunk, in front of what is kept of those after it.
kept_first :
    (c : Chunk) (cs : List Chunk) (after_ : Text)
    → kept c ++ (file_of cs ++ after_) ≡ file_of (if is_shown c then c ∷ cs else cs) ++ after_
unfolding file_of
kept_first c cs after_ = elim (Bool-cases (is_png_metadata (chunk_type c))) [
  | inl h ↦ rw h refl
  | inr h ↦ rw h (sym (append_assoc (bytes_of c) (file_of cs) after_))
]

-- The loop on a file's chunks.
png_chunks :
    (fuel : ℕ) (cs : List Chunk) (e : Chunk) (rest : Text)
    → length (file_of cs ++ (bytes_of e ++ rest)) ≤ fuel
    → all is_inner cs ≡ true
    → is_sized e ≡ true
    → is_end e ≡ true
    → png_loop fuel (file_of cs ++ (bytes_of e ++ rest))
      ≡ file_of (filter is_shown cs) ++ bytes_of e
unfolding file_of all filter
png_chunks zero cs e rest f i s t =
    let long = length-append (file_of cs) (bytes_of e ++ rest) in
    let none_left : 1 ≤ 0 = omega (arith, long, length_chunk e rest) in ground arith
png_chunks (suc fuel) [] e rest f i s t = png_round fuel e rest s ∙ rw (t, end_shown e t) refl
png_chunks (suc fuel) (c ∷ cs) e rest f i s t =
    let after_ = file_of cs ++ (bytes_of e ++ rest) in
    let regroup = append_assoc (bytes_of c) (file_of cs) (bytes_of e ++ rest) in
    let inner : not (is_end c) ≡ true = ground arith in
    let goes_on : is_end c ≡ false = ground arith in
    let sized : is_sized c ≡ true = ground arith in
    let later =
      png_chunks fuel cs e rest
        (omega (arith, ap (λ (l : Text). length l) regroup, length_chunk c after_)) (ground arith) s
        t in
    ap (png_loop (suc fuel)) regroup
    ∙ png_round fuel c after_ sized
    ∙ rw goes_on (ap (λ l. kept c ++ l) later)
    ∙ kept_first c (filter is_shown cs) (bytes_of e)

-- Of a PNG file whose chunks are sized as they say, up to the first `IEND`, exactly the metadata
-- chunks are taken out, and with them whatever
-- follows the end; every other chunk stays, byte for byte and in order.
pub strip_png_lem :
    (cs : List Chunk) (e : Chunk) (rest : Text)
    → all is_inner cs ≡ true
    → is_sized e ≡ true
    → is_end e ≡ true
    → strip_image_metadata
        (png_signature ++ (file_of cs ++ (bytes_of e ++ rest)))
        (text "image/png")
      ≡ png_signature ++ (file_of (filter is_shown cs) ++ bytes_of e)
unfolding strip_image_metadata strip_png strip_prefix text text_eq
strip_png_lem cs e rest i s t =
    ap (λ l. png_signature ++ l)
      (png_chunks (length (file_of cs ++ (bytes_of e ++ rest))) cs e rest (omega arith) i s t)
