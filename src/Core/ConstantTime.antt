-- ===== src/Core/ConstantTime.antt =====
-- The comparison of secrets that core/cap.rs, core/rln.rs, core/vdf.rs and
-- services/privacy_pass.rs each write out.
use Prim.Native.Nat.{bit_or, bit_xor}
use lqxp.Common.Bits.{eq_of_bit_xor, bit_xor_self, bit_or-eq-zero}
use lqxp.Common.{
  ℕ, ◌≡◌, refl, ◌↔◌, Bool, true, false, [], ◌∷◌, arith, nat_beq, if◌then◌else◌, length, Text,
  text_Eq,
}

-- `for (x, y) in a.bytes().zip(b.bytes()) { diff |= x ^ y; }`
fold_diff : ℕ → Text → Text → ℕ
fold_diff diff [] t = diff
fold_diff diff (x ∷ s) [] = diff
fold_diff diff (x ∷ s) (y ∷ t) = fold_diff (bit_or diff (bit_xor x y)) s t

unfoldable pub constant_time_eq : Text → Text → Bool
unfolding fold_diff
constant_time_eq a b = if nat_beq (length a) (length b) then nat_beq (fold_diff 0 a b) 0 else false

fold_diff_zero :
    (diff : ℕ) (s t : Text) → length s ≡ length t → fold_diff diff s t ≡ 0 → (diff ≡ 0) × (s ≡ t)
unfolding fold_diff
fold_diff_zero diff [] [] l h = (h, refl)
fold_diff_zero diff [] (y ∷ t) l h = absurd (omega arith)
fold_diff_zero diff (x ∷ s) [] l h = absurd (omega arith)
fold_diff_zero diff (x ∷ s) (y ∷ t) l h =
    let rest = fold_diff_zero (bit_or diff (bit_xor x y)) s t (omega arith) h in
    let zeros = bit_or-eq-zero diff (bit_xor x y) rest.0 in
    (zeros.0, cc (eq_of_bit_xor x y zeros.1, rest.1))

fold_diff_self : (s : Text) → fold_diff 0 s s ≡ 0
unfolding fold_diff
fold_diff_self [] = refl
fold_diff_self (x ∷ s) = rw (bit_xor_self x) (fold_diff_self s)

-- The comparison that runs in constant time accepts exactly the equal texts.
pub constant_time_eq_iff : (a b : Text) → (constant_time_eq a b ≡ true) ↔ (a ≡ b)
unfolding constant_time_eq
constant_time_eq_iff a b = (
  λ h. (fold_diff_zero 0 a b (ground arith) (ground arith)).1,
  λ e. rw e (ground (arith, fold_diff_self b)),
)
