-- ===== src/Account/Files/Safety.antt =====
-- The names under which uploaded files are stored.
use lqxp.Common.{
  ℕ, zero, suc, ◌≡◌, refl, inl, inr, Bool, true, false, ◌&&◌, ◌||◌, not, List, [], ◌∷◌, ◌++◌, map,
  arith, nat_beq, Bool-cases, ◌==◌, is_empty, any, all, Text, text, split, text_Eq,
}
use lqxp.Common.Chars.{chars, concat, take_chars}
use lqxp.Account.Names.{Unicode}
use lqxp.Account.Files.{
  trim_start_matches, trim_end_matches, trim_matches, is_forbidden, last_part, last_segment,
  sanitized_char, sanitize_filename, extension_or, stored_file_id,
}

-- Not one of the nine ASCII characters `/`, `\`, `:`, `*`, `?`, `"`, `<`, `>` and `|`, by their codes.
abbrev pub is_allowed : ℕ → Bool
is_allowed b =
    not (nat_beq b 47)
    && (not (nat_beq b 92)
        && (not (nat_beq b 58)
            && (not (nat_beq b 42)
                && (not (nat_beq b 63)
                    && (not (nat_beq b 34)
                        && (not (nat_beq b 60) && (not (nat_beq b 62) && not (nat_beq b 124))))))))

-- None of the bytes separates directories, or is otherwise barred from a file's name.
abbrev pub is_safe : Text → Bool
is_safe s = all is_allowed s

-- Whatever the program does not take for forbidden is allowed.
unforbidden : (b : ℕ) → is_forbidden b ≡ false → is_allowed b ≡ true
unfolding is_forbidden any text
unforbidden b h = ground arith

safe-append : (s t : Text) → is_safe s ≡ true → is_safe t ≡ true → is_safe (s ++ t) ≡ true
unfolding all
safe-append [] t h k = k
safe-append (b ∷ s) t h k = ground (arith, safe-append s t)

safe-trim_start_matches :
    (c : ℕ) (s : Text) → is_safe s ≡ true → is_safe (trim_start_matches c s) ≡ true
unfolding all trim_start_matches
safe-trim_start_matches c [] h = refl
safe-trim_start_matches c (b ∷ s) h = ground (arith, safe-trim_start_matches c s)

safe-trim_end_matches :
    (c : ℕ) (s : Text) → is_safe s ≡ true → is_safe (trim_end_matches c s) ≡ true
unfolding all trim_end_matches
safe-trim_end_matches c [] h = refl
safe-trim_end_matches c (b ∷ s) h = ground (arith, safe-trim_end_matches c s)

safe-take_chars : (n : ℕ) (s : Text) → is_safe s ≡ true → is_safe (take_chars n s) ≡ true
unfolding all take_chars
safe-take_chars n [] h = refl
safe-take_chars zero (b ∷ s) h = ground (arith, safe-take_chars zero s)
safe-take_chars (suc n) (b ∷ s) h = ground (arith, safe-take_chars n s, safe-take_chars (suc n) s)

-- Every part that a text is split into.
abbrev all_parts : List Text → Bool
all_parts parts = all (λ part. is_safe part) parts

safe_first :
    (b : ℕ) (parts : List Text)
    → is_allowed b ≡ true
    → all_parts parts ≡ true
    → all_parts (elim parts [ [] ↦ (b ∷ []) ∷ [] | part ∷ rest ↦ (b ∷ part) ∷ rest ]) ≡ true
unfolding all
safe_first b [] h k = ground arith
safe_first b (part ∷ rest) h k = ground arith

all_parts-split : (c : ℕ) (s : Text) → is_safe s ≡ true → all_parts (split c s) ≡ true
unfolding all split
all_parts-split c [] h = refl
all_parts-split c (b ∷ s) h = elim (Bool-cases (nat_beq b c)) [
  | inl e ↦ rw (split, e) (all_parts-split c s (ground arith))
  | inr e ↦
      rw (split, e) (safe_first b (split c s) (ground arith) (all_parts-split c s (ground arith)))
]

safe-last_part : (parts : List Text) → all_parts parts ≡ true → is_safe (last_part parts) ≡ true
unfolding all last_part
safe-last_part [] h = refl
safe-last_part (s ∷ []) h = ground arith
safe-last_part (s ∷ t ∷ parts) h = safe-last_part (t ∷ parts) (ground arith)

any_none : (s : Text) → any is_forbidden s ≡ false → is_safe s ≡ true
unfolding any all
any_none [] h = refl
any_none (b ∷ s) h = ground (arith, any_none s, unforbidden b)

underscore : is_safe (b'_' ∷ []) ≡ true
unfolding all text
underscore = refl

file_name_ok : is_safe (text "file") ≡ true
unfolding all text
file_name_ok = refl

dot_ok : is_allowed b'.' ≡ true
dot_ok = refl

module _ (u : Unicode) where
  sanitized_char-is_safe : (ch : Text) → is_safe (sanitized_char u ch) ≡ true
  unfolding sanitized_char
  sanitized_char-is_safe ch = elim (Bool-cases (u.is_control ch || any is_forbidden ch)) [
    | inl h ↦ rw (sanitized_char, h) underscore
    | inr h ↦ rw (sanitized_char, h) (any_none ch (ground arith))
  ]

  mapped-is_safe : (cs : List Text) → is_safe (concat (map (sanitized_char u) cs)) ≡ true
  unfolding concat all
  mapped-is_safe [] = refl
  mapped-is_safe (c ∷ cs) =
      safe-append (sanitized_char u c) (concat (map (sanitized_char u) cs))
        (sanitized_char-is_safe c) (mapped-is_safe cs)

  -- `trim` only takes characters away.
  module _ (trims : (s : Text) → is_safe s ≡ true → is_safe (u.trim s) ≡ true) where
    sanitize_filename-is_safe :
        (value fallback : Text) (max_len : ℕ)
        → is_safe fallback ≡ true
        → is_safe (sanitize_filename u value fallback max_len) ≡ true
    unfolding sanitize_filename trim_matches
    sanitize_filename-is_safe value fallback max_len h =
        let mapped = concat (map (sanitized_char u) (chars (u.trim value))) in
        let trimmed = u.trim (trim_matches b'.' mapped) in
        let inner = trims (trim_matches b'.' mapped) (
          safe-trim_end_matches b'.' (trim_start_matches b'.' mapped)
            (safe-trim_start_matches b'.' mapped (mapped-is_safe (chars (u.trim value))))) in
        elim (Bool-cases (is_empty trimmed)) [
          | inl c ↦ rw (sanitize_filename, c) (safe-take_chars max_len fallback h)
          | inr c ↦ rw (sanitize_filename, c) (safe-take_chars max_len trimmed inner)
        ]

    extension_or-is_safe :
        (filename : Text) → is_safe filename ≡ true → is_safe (extension_or filename []) ≡ true
    unfolding extension_or last_segment all
    extension_or-is_safe filename h =
        let last = safe-last_part (split b'.' filename) (all_parts-split b'.' filename h) in
        elim (Bool-cases (last_part (split b'.' filename) == filename)) [
          | inl c ↦ rw (extension_or, c) refl
          | inr c ↦ rw (extension_or, c) last
        ]

    -- Whatever name is sent: the file of an attachment is stored under a name with
    -- none of `/`, `\`, `:`, `*`, `?`, `"`, `<`, `>` and `|`, so in the upload directory itself,
    -- provided that the fresh identifier has none and that trimming puts none in.
    pub attachment_name_safe :
        (uuid value : Text) (max_len : ℕ)
        → is_safe uuid ≡ true
        → is_safe (
            stored_file_id u uuid
              (extension_or (sanitize_filename u value (text "file") max_len) []))
          ≡ true
    unfolding stored_file_id all
    attachment_name_safe uuid value max_len h =
        let name = sanitize_filename u value (text "file") max_len in
        let ext = extension_or name [] in
        let safe_ext = trims ext (
          extension_or-is_safe name
            (sanitize_filename-is_safe value (text "file") max_len file_name_ok)) in
        elim (Bool-cases (is_empty (u.trim ext))) [
          | inl c ↦ rw (stored_file_id, c) h
          | inr c ↦
              rw (stored_file_id, c)
                (safe-append uuid (b'.' ∷ trim_start_matches b'.' (u.trim ext)) h
                  (ground (arith, dot_ok, safe-trim_start_matches b'.' (u.trim ext) safe_ext)))
        ]
