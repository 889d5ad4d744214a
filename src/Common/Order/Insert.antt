-- ===== src/Common/Order/Insert.antt =====
-- Insertion into a sorted list, and removal from it.
use lqxp.Common.{
  ◌≡◌, refl, sym, ap, ◌∙◌, true, false, ◌&&◌, List, [], ◌∷◌, ◌++◌, arith, ◌==◌, eq_law, any, Text,
  text_Eq,
}
use mathlib.Core.List.{append-nil, append_assoc}
use lqxp.Common.Order.{
  text_lt, text_lt_irrefl, text_lt_asymm, text_lt_trans, text_lt_total, insert_sorted, sort_onto,
  sort, all_above, is_sorted,
}

module _ {A : Type 0} (key : A → Text) where
  pub all_above-append :
      (k : Text) (xs ys : List A)
      → all_above key k (xs ++ ys) ≡ (all_above key k xs && all_above key k ys)
  unfolding all_above
  all_above-append k [] ys = refl
  all_above-append k (x ∷ xs) ys = ground (arith, all_above-append k xs ys)

  pub all_above_trans :
      (j k : Text) (xs : List A)
      → text_lt j k ≡ true
      → all_above key k xs ≡ true
      → all_above key j xs ≡ true
  unfolding all_above
  all_above_trans j k [] h a = refl
  all_above_trans j k (x ∷ xs) h a =
      ground (arith, text_lt_trans j k (key x), all_above_trans j k xs)

  all_above-insert_sorted :
      (k : Text) (a : A) (xs : List A)
      → all_above key k (insert_sorted key a xs) ≡ (text_lt k (key a) && all_above key k xs)
  unfolding all_above insert_sorted
  all_above-insert_sorted k a [] = refl
  all_above-insert_sorted k a (x ∷ xs) = ground (arith, all_above-insert_sorted k a xs)

  -- Insertion of a new key keeps a list sorted.
  pub insert_sorted-is_sorted :
      (a : A) (xs : List A)
      → is_sorted key xs ≡ true
      → any (λ x. key x == key a) xs ≡ false
      → is_sorted key (insert_sorted key a xs) ≡ true
  unfolding is_sorted insert_sorted any all_above
  insert_sorted-is_sorted a [] s n = refl
  insert_sorted-is_sorted a (x ∷ xs) s n = ground (
    arith,
    text_lt_total (key a) (key x),
    eq_law (key x) (key a),
    all_above_trans (key a) (key x) xs,
    all_above-insert_sorted (key x) a xs,
    insert_sorted-is_sorted a xs,
  )

  insert_end :
      (a : A) (xs ys : List A)
      → is_sorted key (xs ++ a ∷ ys) ≡ true
      → insert_sorted key a xs ≡ xs ++ a ∷ []
  unfolding is_sorted insert_sorted all_above
  insert_end a [] ys s = refl
  insert_end a (x ∷ xs) ys s = ground (
    arith,
    all_above-append (key x) xs (a ∷ ys),
    text_lt_asymm (key x) (key a),
    insert_end a xs ys,
  )

  sort_onto_sorted :
      (xs acc : List A) → is_sorted key (acc ++ xs) ≡ true → sort_onto key xs acc ≡ acc ++ xs
  unfolding sort_onto
  sort_onto_sorted [] acc s = sym (append-nil acc)
  sort_onto_sorted (x ∷ xs) acc s =
      let e = insert_end x acc xs s in
      rw e (sort_onto_sorted xs (acc ++ x ∷ []) (rw append_assoc s) ∙ append_assoc acc (x ∷ []) xs)

  sort_onto_last :
      (xs acc : List A) (a : A)
      → sort_onto key (xs ++ a ∷ []) acc ≡ insert_sorted key a (sort_onto key xs acc)
  unfolding sort_onto
  sort_onto_last [] acc a = refl
  sort_onto_last (x ∷ xs) acc a = sort_onto_last xs (insert_sorted key x acc) a

  -- To push onto a sorted list and sort is to insert.
  pub sort_last :
      (xs : List A) (a : A)
      → is_sorted key xs ≡ true
      → sort key (xs ++ a ∷ []) ≡ insert_sorted key a xs
  unfolding sort
  sort_last xs a s = sort_onto_last xs [] a ∙ ap (insert_sorted key a) (sort_onto_sorted xs [] s)

  -- A key below all keys is inserted in front.
  pub insert_sorted-front :
      (a : A) (xs : List A) → all_above key (key a) xs ≡ true → insert_sorted key a xs ≡ a ∷ xs
  unfolding insert_sorted all_above
  insert_sorted-front a [] h = refl
  insert_sorted-front a (x ∷ xs) h = ground arith

  pub all_above-absent :
      (k : Text) (xs : List A) → all_above key k xs ≡ true → any (λ x. key x == k) xs ≡ false
  unfolding all_above any
  all_above-absent k [] h = refl
  all_above-absent k (x ∷ xs) h =
      ground (arith, eq_law (key x) k, text_lt_irrefl k, all_above-absent k xs)

  pub all_above-present :
      (k j : Text) (xs : List A)
      → all_above key k xs ≡ true
      → any (λ x. key x == j) xs ≡ true
      → text_lt k j ≡ true
  unfolding all_above any
  all_above-present k j [] h p = cc
  all_above-present k j (x ∷ xs) h p = ground (arith, eq_law (key x) j, all_above-present k j xs)
