-- ===== src/Common/Decimal.antt =====
-- `u64` numbers as text: the `Display` of the standard library, and `str::parse::<u64>`.
use Prim.Native.Nat.{ℕ, zero, suc, ◌+◌, ◌-◌, ◌*◌, ◌/◌, ◌%◌, ◌^◌, ◌<◌}
use mathlib.Core.Bool.{Bool, true, false, ◌&&◌}
use mathlib.Core.List.{[], ◌∷◌}
use mathlib.Core.Logic.{inl, inr, ◌≢◌}
use mathlib.Core.Option.{Option, none, some}
use mathlib.Core.Path.{◌≡◌, refl, ◌∙◌}
use native.Mathlib.Nat.{pow-suc, div-add-mod}
use native.Mathlib.Omega.{arith}
use lqxp.Common.Tests.{ltb, nat_beq, if◌then◌else◌, Bool-cases}
use lqxp.Common.Lists.{all}
use lqxp.Common.Strings.{Text, is_ascii_digit, not_sep}

-- `fuel` bounds the number of digits.
emit : ℕ → ℕ → Text → Text
emit zero n out = out
emit (suc fuel) n out =
    let digits = (b'0' + n % 10) ∷ out in
    let rest = emit fuel (n / 10) digits in if nat_beq (n / 10) 0 then digits else rest

-- A `u64` has at most 20 digits.
unfoldable pub decimal : ℕ → Text
unfolding emit
decimal n = emit 20 n []

-- `checked_mul(10)` and `checked_add(digit)` in one test: both fail exactly past `u64::MAX`.
scan : Text → ℕ → Option ℕ
scan [] n = some n
scan (c ∷ s) n =
    if is_ascii_digit c && ltb (n * 10 + (c - b'0')) (2 ^ 64)
    then scan s (n * 10 + (c - b'0'))
    else none

-- A leading `+` is allowed before a digit; the empty text is refused.
unfoldable pub parse_u64 : Text → Option ℕ
unfolding scan
parse_u64 [] = none
parse_u64 (c ∷ []) = scan (c ∷ []) 0
parse_u64 (c ∷ d ∷ s) = if nat_beq c b'+' then scan (d ∷ s) 0 else scan (c ∷ d ∷ s) 0

scan_digit : (n : ℕ) (out : Text) → n < 2 ^ 64 → scan ((b'0' + n % 10) ∷ out) (n / 10) ≡ scan out n
unfolding scan
scan_digit n out h = ground (arith, div-add-mod n 10)

scan-emit :
    (fuel n : ℕ) (out : Text)
    → n < 10 ^ suc fuel
    → n < 2 ^ 64
    → scan (emit (suc fuel) n out) 0 ≡ scan out n
unfolding emit
scan-emit zero n out h b = ground (arith, scan_digit n out)
scan-emit (suc fuel) n out h b = elim (Bool-cases (nat_beq (n / 10) 0)) [
  | inl small ↦ rw small (ground (arith, scan_digit n out))
  | inr large ↦ rw large (
      scan-emit fuel (n / 10) _ (omega (arith, pow-suc 10 (suc fuel))) (omega arith)
      ∙ scan_digit n out b)
]

abbrev Digits : Text → Type 0
Digits s = all (λ c. is_ascii_digit c) s ≡ true

digit_char : (n : ℕ) → is_ascii_digit (b'0' + n % 10) ≡ true
digit_char n = ground arith

emit-Digits : (fuel n : ℕ) (out : Text) → Digits out → Digits (emit fuel n out)
unfolding emit all
emit-Digits zero n out h = h
emit-Digits (suc fuel) n out h =
    ground (arith, digit_char n, emit-Digits fuel (n / 10) ((b'0' + n % 10) ∷ out))

decimal-Digits : (n : ℕ) → Digits (decimal n)
unfolding decimal all
decimal-Digits n = emit-Digits 20 n [] refl

parse-Digits : (s : Text) → Digits s → s ≢ [] → parse_u64 s ≡ scan s 0
unfolding parse_u64 all
parse-Digits [] h e = absurd (e refl)
parse-Digits (c ∷ []) h e = refl
parse-Digits (c ∷ d ∷ s) h e = ground arith

emit-ne_nil : (fuel n c : ℕ) (out : Text) → emit fuel n (c ∷ out) ≢ []
unfolding emit
emit-ne_nil zero n c out = λ h. cc
emit-ne_nil (suc fuel) n c out =
    λ h. ground (arith, emit-ne_nil fuel (n / 10) (b'0' + n % 10) (c ∷ out))

decimal-ne_nil : (n : ℕ) → decimal n ≢ []
unfolding decimal
decimal-ne_nil n = λ h. ground (arith, emit-ne_nil 19 (n / 10) (b'0' + n % 10) [])

-- A printed number is read back.
pub parse_u64-decimal : (n : ℕ) → n < 2 ^ 64 → parse_u64 (decimal n) ≡ some n
unfolding decimal
parse_u64-decimal n h =
    parse-Digits (decimal n) (decimal-Digits n) (decimal-ne_nil n)
    ∙ scan-emit 19 n [] (omega arith) h
    ∙ unfold scan in refl

all_mono :
    (p q : ℕ → Bool) (s : Text)
    → ((c : ℕ) → p c ≡ true → q c ≡ true)
    → all p s ≡ true
    → all q s ≡ true
unfolding all
all_mono p q [] f h = refl
all_mono p q (c ∷ s) f h = ground (arith, f c, all_mono p q s f)

-- A printed number holds no separator that is not a digit.
pub decimal-not_sep :
    (sep n : ℕ) → is_ascii_digit sep ≡ false → all (λ c. not_sep sep c) (decimal n) ≡ true
decimal-not_sep sep n h =
    all_mono (λ c. is_ascii_digit c) (λ c. not_sep sep c) (decimal n) (λ c d. ground arith)
      (decimal-Digits n)
