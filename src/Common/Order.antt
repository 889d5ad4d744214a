-- ===== src/Common/Order.antt =====
-- The order of strings, byte by byte, and `sort` of the standard library on a list of keys: an
-- insertion sort, which is stable.
pub mod Insert
use lqxp.Common.{
  ◌-◌, ◌≡◌, refl, Bool, true, false, ◌&&◌, not, List, [], ◌∷◌, arith, ltb, if◌then◌else◌, Text,
  text_Eq,
}
use Prim.Native.Nat.{compare, Ordering}

unfoldable pub text_lt : Text → Text → Bool
text_lt [] [] = false
text_lt [] (d ∷ t) = true
text_lt (c ∷ s) [] = false
text_lt (c ∷ s) (d ∷ t) = if ltb c d then true else if ltb d c then false else text_lt s t

pub text_lt_irrefl : (s : Text) → text_lt s s ≡ false
unfolding text_lt
text_lt_irrefl [] = refl
text_lt_irrefl (c ∷ s) = ground (arith, text_lt_irrefl s)

pub text_lt_asymm : (s t : Text) → text_lt s t ≡ true → text_lt t s ≡ false
unfolding text_lt
text_lt_asymm [] [] h = refl
text_lt_asymm [] (d ∷ t) h = refl
text_lt_asymm (c ∷ s) [] h = cc
text_lt_asymm (c ∷ s) (d ∷ t) h = ground (arith, text_lt_asymm s t)

pub text_lt_trans : (s t u : Text) → text_lt s t ≡ true → text_lt t u ≡ true → text_lt s u ≡ true
unfolding text_lt
text_lt_trans [] [] u h k = cc
text_lt_trans [] (d ∷ t) [] h k = cc
text_lt_trans [] (d ∷ t) (e ∷ u) h k = refl
text_lt_trans (c ∷ s) [] u h k = cc
text_lt_trans (c ∷ s) (d ∷ t) [] h k = cc
text_lt_trans (c ∷ s) (d ∷ t) (e ∷ u) h k = ground (arith, text_lt_trans s t u)

pub text_lt_total : (s t : Text) → text_lt s t ≡ false → text_lt t s ≡ false → s ≡ t
unfolding text_lt
text_lt_total [] [] h k = refl
text_lt_total [] (d ∷ t) h k = cc
text_lt_total (c ∷ s) [] h k = cc
text_lt_total (c ∷ s) (d ∷ t) h k = ground (arith, text_lt_total s t)

module _ {A : Type 0} (key : A → Text) where
  -- After the elements whose key is not greater.
  unfoldable pub insert_sorted : A → List A → List A
  insert_sorted a [] = a ∷ []
  insert_sorted a (x ∷ xs) = if text_lt (key a) (key x) then a ∷ x ∷ xs else x ∷ insert_sorted a xs

  -- From the front on, so that equal keys keep their order.
  unfoldable pub sort_onto : List A → List A → List A
  unfolding insert_sorted
  sort_onto [] sorted = sorted
  sort_onto (x ∷ xs) sorted = sort_onto xs (insert_sorted x sorted)

  unfoldable pub sort : List A → List A
  unfolding sort_onto
  sort xs = sort_onto xs []

  -- Every key of a list is above a key.
  unfoldable pub all_above : Text → List A → Bool
  all_above k [] = true
  all_above k (x ∷ xs) = text_lt k (key x) && all_above k xs

  -- The keys strictly increase.
  unfoldable pub is_sorted : List A → Bool
  unfolding all_above
  is_sorted [] = true
  is_sorted (x ∷ xs) = all_above (key x) xs && is_sorted xs
