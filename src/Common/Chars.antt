-- ===== src/Common/Chars.antt =====
-- The characters of a UTF-8 text: every byte but a continuation byte starts one.
use lqxp.Common.{
  ℕ, zero, suc, ◌+◌, ◌≤◌, ◌<◌, ◌≡◌, refl, ap, ◌∙◌, Bool, false, ◌&&◌, ◌||◌, Option, none, some,
  List, [], ◌∷◌, ◌++◌, arith, ltb, leb, nat_beq, if◌then◌else◌, is_empty, is_some, Text, text_Eq,
}

abbrev pub continues : ℕ → Bool
continues b = leb 128 b && ltb b 192

-- Whether a text begins inside a character.
abbrev begins_inside : Text → Bool
begins_inside [] = false
begins_inside (b ∷ s) = continues b

-- `chars().count()`
unfoldable pub char_count : Text → ℕ
char_count [] = 0
char_count (b ∷ s) = (if continues b then 0 else 1) + char_count s

-- `chars().take(n).collect()`
unfoldable pub take_chars : ℕ → Text → Text
take_chars n [] = []
take_chars zero (b ∷ s) = let rest = take_chars zero s in if continues b then b ∷ rest else []
take_chars (suc n) (b ∷ s) = b ∷ take_chars (if continues b then suc n else n) s

attach : ℕ → List Text → List Text
attach b [] = (b ∷ []) ∷ []
attach b (c ∷ cs) = if begins_inside c then (b ∷ c) ∷ cs else (b ∷ []) ∷ c ∷ cs

-- `chars()`: each character as its bytes.
unfoldable pub chars : Text → List Text
unfolding attach
chars [] = []
chars (b ∷ s) = attach b (chars s)

unfoldable pub concat : List Text → Text
concat [] = []
concat (c ∷ cs) = c ++ concat cs

-- Whether a text begins with another one; what follows it there.
unfoldable pub strip_prefix : Text → Text → Option Text
strip_prefix [] s = some s
strip_prefix (c ∷ p) [] = none
strip_prefix (c ∷ p) (d ∷ s) = let rest = strip_prefix p s in if nat_beq c d then rest else none

-- `str::contains` of a text.
unfoldable pub contains_text : Text → Text → Bool
unfolding strip_prefix
contains_text part [] = is_some (strip_prefix part [])
contains_text part (c ∷ s) = is_some (strip_prefix part (c ∷ s)) || contains_text part s

concat-attach : (b : ℕ) (cs : List Text) → concat (attach b cs) ≡ b ∷ concat cs
unfolding attach concat
concat-attach b [] = refl
concat-attach b (c ∷ cs) = ground arith

pub concat-chars : (s : Text) → concat (chars s) ≡ s
unfolding chars concat
concat-chars [] = refl
concat-chars (b ∷ s) = concat-attach b (chars s) ∙ ap (λ t. b ∷ t) (concat-chars s)

pub char_count-take_chars : (n : ℕ) (s : Text) → char_count (take_chars n s) ≤ n
unfolding char_count take_chars
char_count-take_chars n [] = omega arith
char_count-take_chars zero (b ∷ s) = ground (arith, char_count-take_chars zero s)
char_count-take_chars (suc n) (b ∷ s) =
    ground (arith, char_count-take_chars n s, char_count-take_chars (suc n) s)

pub take_chars_nonempty :
    (n : ℕ) (s : Text) → is_empty s ≡ false → 0 < n → is_empty (take_chars n s) ≡ false
unfolding take_chars
take_chars_nonempty n [] h k = cc
take_chars_nonempty zero (b ∷ s) h k = ground arith
take_chars_nonempty (suc n) (b ∷ s) h k = refl
