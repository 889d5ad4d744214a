-- ===== src/Chat/Reactions/Users.antt =====
-- Sorted lists of distinct keys: what removal and insertion of a key do.
use lqxp.Common.{
  ◌≡◌, refl, true, false, ◌&&◌, ◌||◌, not, List, [], ◌∷◌, arith, ◌==◌, eq_law, filter, any,
  contains, set_remove, Text, text_Eq,
}
use lqxp.Common.Order.{text_lt_irrefl, text_lt_asymm, insert_sorted, all_above, is_sorted}
use lqxp.Common.Order.Insert.{insert_sorted-front, all_above-absent, all_above-present}

abbrev pub self : Text → Text
self u = u

pub contains-any : (a : Text) (xs : List Text) → contains xs a ≡ any (λ x. self x == a) xs
unfolding contains any
contains-any a [] = refl
contains-any a (x ∷ xs) = ground (arith, contains-any a xs)

pub set_remove_absent : (a : Text) (xs : List Text) → contains xs a ≡ false → set_remove a xs ≡ xs
unfolding set_remove filter contains
set_remove_absent a [] h = refl
set_remove_absent a (x ∷ xs) h = ground (arith, set_remove_absent a xs)

pub set_remove-insert_sorted :
    (a : Text) (xs : List Text)
    → contains xs a ≡ false
    → set_remove a (insert_sorted self a xs) ≡ xs
unfolding set_remove filter contains insert_sorted
set_remove-insert_sorted a [] h = ground (arith, eq_law a a)
set_remove-insert_sorted a (x ∷ xs) h =
    ground (arith, eq_law a a, set_remove_absent a xs, set_remove-insert_sorted a xs)

all_above-set_remove :
    (k a : Text) (xs : List Text)
    → all_above self k xs ≡ true
    → all_above self k (set_remove a xs) ≡ true
unfolding set_remove filter all_above
all_above-set_remove k a [] h = refl
all_above-set_remove k a (x ∷ xs) h = ground (arith, all_above-set_remove k a xs)

pub set_remove-is_sorted :
    (a : Text) (xs : List Text) → is_sorted self xs ≡ true → is_sorted self (set_remove a xs) ≡ true
unfolding set_remove filter is_sorted
set_remove-is_sorted a [] s = refl
set_remove-is_sorted a (x ∷ xs) s =
    ground (arith, all_above-set_remove x a xs, set_remove-is_sorted a xs)

pub contains-insert_sorted :
    (a b : Text) (xs : List Text)
    → contains (insert_sorted self a xs) b ≡ ((a == b) || contains xs b)
unfolding contains insert_sorted
contains-insert_sorted a b [] = refl
contains-insert_sorted a b (x ∷ xs) = ground (arith, contains-insert_sorted a b xs)

pub contains-set_remove :
    (a b : Text) (xs : List Text) → contains (set_remove a xs) b ≡ (not (a == b) && contains xs b)
unfolding contains set_remove filter
contains-set_remove a b [] = ground arith
contains-set_remove a b (x ∷ xs) =
    ground (arith, eq_law x a, eq_law a b, eq_law x b, contains-set_remove a b xs)

-- What is removed from a sorted list is inserted where it was.
pub insert_sorted-set_remove :
    (a : Text) (xs : List Text)
    → is_sorted self xs ≡ true
    → contains xs a ≡ true
    → insert_sorted self a (set_remove a xs) ≡ xs
unfolding contains set_remove filter insert_sorted is_sorted
insert_sorted-set_remove a [] s h = cc
insert_sorted-set_remove a (x ∷ xs) s h = ground (
  arith,
  eq_law x a,
  text_lt_irrefl x,
  contains-any a xs,
  all_above-absent self x xs,
  all_above-present self x a xs,
  text_lt_asymm x a,
  set_remove_absent a xs,
  insert_sorted-front self x xs,
  insert_sorted-set_remove a xs,
)
