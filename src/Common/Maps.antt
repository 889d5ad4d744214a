-- ===== src/Common/Maps.antt =====
-- A map as an association list with the last write in front (`HashMap`, `BTreeMap`). The order of
-- the entries stands for the map's iteration order.
use Prim.Native.Nat.{ℕ, suc, ◌≤◌}
use mathlib.Core.Bool.{Bool, true, false}
use mathlib.Core.List.{List, [], ◌∷◌}
use mathlib.Core.Option.{Option, none, some}
use mathlib.Core.Path.{◌≡◌, refl}
use native.Mathlib.Omega.{arith}
use lqxp.Common.Tests.{if◌then◌else◌, Eq, ◌==◌, eq_law}
use lqxp.Common.Lists.{length}

abbrev pub Assoc {ℓ κ} : Type ℓ → Type κ → Type (ℓ ⊔ κ)
Assoc K V = List (K × V)

-- `is_some` and `unwrap_or` of the standard library.
abbrev pub is_some {ℓ} : {A : Type ℓ} → Option A → Bool
is_some none = false
is_some (some a) = true

abbrev pub unwrap_or {ℓ} : {A : Type ℓ} → Option A → A → A
unwrap_or none d = d
unwrap_or (some a) d = a

module _ {ℓ κ} {K : Type ℓ} {V : Type κ} where
  unfoldable pub retain : (K → V → Bool) → Assoc K V → Assoc K V
  retain p [] = []
  retain p ((k, v) ∷ m) = if p k v then (k, v) ∷ retain p m else retain p m

  -- The number of entries whose value passes a test.
  unfoldable pub count : (V → Bool) → Assoc K V → ℕ
  count p [] = 0
  count p ((k, v) ∷ m) = if p v then suc (count p m) else count p m

  abbrev pub values : Assoc K V → List V
  values [] = []
  values ((k, v) ∷ m) = v ∷ values m

  pub length-retain-le : (p : K → V → Bool) (m : Assoc K V) → length (retain p m) ≤ length m
  unfolding retain
  length-retain-le p [] = omega arith
  length-retain-le p ((k, v) ∷ m) = ground (arith, length-retain-le p m)

module _ {ℓ κ} {K : Type ℓ} {V : Type κ} ⦃e : Eq K⦄ where
  unfoldable pub lookup : K → Assoc K V → Option V
  lookup k [] = none
  lookup k ((j, v) ∷ m) = if j == k then some v else lookup k m

  unfoldable pub remove : K → Assoc K V → Assoc K V
  remove k [] = []
  remove k ((j, v) ∷ m) = if j == k then remove k m else (j, v) ∷ remove k m

  unfoldable pub insert : K → V → Assoc K V → Assoc K V
  insert k v m = (k, v) ∷ remove k m

  unfoldable pub contains_key : K → Assoc K V → Bool
  contains_key k m = is_some (lookup k m)

  -- A change in place of the value at a key (`get_mut`).
  unfoldable pub adjust : K → (V → V) → Assoc K V → Assoc K V
  adjust k f [] = []
  adjust k f ((j, v) ∷ m) = if j == k then (j, f v) ∷ m else (j, v) ∷ adjust k f m

  pub lookup-adjust :
      (k j : K) (f : V → V) (v : V) (m : Assoc K V)
      → lookup k m ≡ some v
      → lookup j (adjust k f m) ≡ (if k == j then some (f v) else lookup j m)
  unfolding lookup adjust
  lookup-adjust k j f v [] h = cc
  lookup-adjust k j f v ((i, w) ∷ m) h =
      ground (arith, eq_law k j, eq_law i k, eq_law i j, lookup-adjust k j f v m)

  pub lookup-remove :
      (k j : K) (m : Assoc K V) → lookup j (remove k m) ≡ (if k == j then none else lookup j m)
  unfolding lookup remove
  lookup-remove k j [] = ground arith
  lookup-remove k j ((i, v) ∷ m) =
      ground (arith, eq_law k j, eq_law i k, eq_law i j, lookup-remove k j m)

  pub lookup-insert :
      (k j : K) (v : V) (m : Assoc K V)
      → lookup j (insert k v m) ≡ (if k == j then some v else lookup j m)
  unfolding lookup insert
  lookup-insert k j v m = ground (arith, lookup-remove k j m)

  pub lookup_self : (k : K) (v : V) (m : Assoc K V) → lookup k (insert k v m) ≡ some v
  unfolding lookup insert
  lookup_self k v m = ground (arith, eq_law k k)

  pub remove-absent : (k : K) (m : Assoc K V) → lookup k m ≡ none → remove k m ≡ m
  unfolding lookup remove
  remove-absent k [] h = refl
  remove-absent k ((j, v) ∷ m) h = ground (arith, eq_law j k, remove-absent k m)

  pub lookup-retain :
      (p : K → V → Bool) (k : K) (v : V) (m : Assoc K V)
      → lookup k m ≡ some v
      → p k v ≡ true
      → lookup k (retain p m) ≡ some v
  unfolding lookup retain
  lookup-retain p k v [] h t = cc
  lookup-retain p k v ((j, w) ∷ m) h t = ground (arith, eq_law j k, lookup-retain p k v m)

  -- The keys of a map are pairwise distinct.
  abbrev pub Distinct : Assoc K V → Type κ
  Distinct [] = Unit
  Distinct ((k, v) ∷ m) = (lookup k m ≡ none) × Distinct m

  pub lookup-retain-none :
      (p : K → V → Bool) (k : K) (m : Assoc K V) → lookup k m ≡ none → lookup k (retain p m) ≡ none
  unfolding lookup retain
  lookup-retain-none p k [] h = refl
  lookup-retain-none p k ((j, w) ∷ m) h = ground (arith, lookup-retain-none p k m)

  pub retain-Distinct : (p : K → V → Bool) (m : Assoc K V) → Distinct m → Distinct (retain p m)
  unfolding retain
  retain-Distinct p [] d = tt
  retain-Distinct p ((k, v) ∷ m) d =
      ground (arith, retain-Distinct p m d.1, lookup-retain-none p k m)

  -- Among distinct keys a retained entry is one of the map that passes the test.
  pub lookup-retain-some :
      (p : K → V → Bool) (k : K) (v : V) (m : Assoc K V)
      → Distinct m
      → lookup k (retain p m) ≡ some v
      → (lookup k m ≡ some v) × (p k v ≡ true)
  unfolding lookup retain
  lookup-retain-some p k v [] d h = cc
  lookup-retain-some p k v ((j, w) ∷ m) d h =
      ground (arith, eq_law j k, lookup-retain-none p k m, lookup-retain-some p k v m d.1)

  pub remove-Distinct : (k : K) (m : Assoc K V) → Distinct m → Distinct (remove k m)
  unfolding remove
  remove-Distinct k [] d = tt
  remove-Distinct k ((j, v) ∷ m) d = ground (arith, remove-Distinct k m d.1, lookup-remove k j m)

  pub insert-Distinct : (k : K) (v : V) (m : Assoc K V) → Distinct m → Distinct (insert k v m)
  unfolding insert
  insert-Distinct k v m d = ground (arith, remove-Distinct k m d, lookup-remove k k m, eq_law k k)

  pub length-remove-le : (k : K) (m : Assoc K V) → length (remove k m) ≤ length m
  unfolding remove
  length-remove-le k [] = omega arith
  length-remove-le k ((j, v) ∷ m) = ground (arith, length-remove-le k m)

  -- Among distinct keys, to remove a present key takes one entry away.
  pub length-remove :
      (k : K) (v : V) (m : Assoc K V)
      → Distinct m
      → lookup k m ≡ some v
      → suc (length (remove k m)) ≡ length m
  unfolding lookup remove
  length-remove k v [] d h = cc
  length-remove k v ((j, w) ∷ m) d h =
      ground (arith, eq_law j k, remove-absent k m, length-remove k v m d.1)

  pub count-remove-le : (p : V → Bool) (k : K) (m : Assoc K V) → count p (remove k m) ≤ count p m
  unfolding remove count
  count-remove-le p k [] = omega arith
  count-remove-le p k ((j, v) ∷ m) = ground (arith, count-remove-le p k m)

  pub count-remove :
      (p : V → Bool) (k : K) (v : V) (m : Assoc K V)
      → lookup k m ≡ some v
      → p v ≡ true
      → suc (count p (remove k m)) ≤ count p m
  unfolding lookup remove count
  count-remove p k v [] h t = cc
  count-remove p k v ((j, w) ∷ m) h t =
      ground (arith, eq_law j k, count-remove-le p k m, count-remove p k v m)

  pub lookup-retain_rejected :
      (p : K → V → Bool) (k : K) (v : V) (m : Assoc K V)
      → Distinct m
      → lookup k m ≡ some v
      → p k v ≡ false
      → lookup k (retain p m) ≡ none
  unfolding lookup retain
  lookup-retain_rejected p k v [] d h t = cc
  lookup-retain_rejected p k v ((j, w) ∷ m) d h t =
      ground (arith, eq_law j k, lookup-retain-none p k m, lookup-retain_rejected p k v m d.1)
