-- ===== src/Core/Once.antt =====
-- The map of consumed keys and their expiry times that core/rln.rs and core/vdf.rs keep.
use lqxp.Common.{
  ℕ, ◌<◌, ◌≡◌, inl, inr, Bool, false, Option, none, some, map, arith, ltb, if◌then◌else◌,
  Bool-cases, eq_law, length, Assoc, retain, lookup, insert, lookup-insert, lookup_self,
  lookup-retain, Text, ApiError, Exec, ok, err, text_Eq,
}

abbrev pub Consumed : Type 0
Consumed = Assoc Text ℕ

-- `if map.len() > 10_000 { map.retain(|_, expires| *expires > now); }`
sweep : ℕ → Consumed → Consumed
sweep now map = if ltb 10000 (length map) then retain (λ _ expires. ltb now expires) map else map

abbrev live_entry : Option ℕ → ℕ → Bool
live_entry none now = false
live_entry (some expires) now = ltb now expires

unfoldable pub consume : Text → ℕ → ℕ → ApiError → Exec Consumed (Unit {0})
unfolding sweep
consume key now expires refused map =
    let kept = sweep now map in
    if live_entry (lookup key kept) now
    then (err refused, kept)
    else (ok tt, insert key expires kept)

sweep-keeps :
    (key : Text) (now expires : ℕ) (map : Consumed)
    → lookup key map ≡ some expires
    → now < expires
    → lookup key (sweep now map) ≡ some expires
unfolding sweep
sweep-keeps key now expires map h l =
    ground (arith, lookup-retain (λ _ expires. ltb now expires) key expires map)

-- A key that has not expired is refused.
pub consume_live :
    (key : Text) (now e expires : ℕ) (refused : ApiError) (map : Consumed)
    → lookup key map ≡ some e
    → now < e
    → (consume key now expires refused map).0 ≡ err refused
unfolding consume
consume_live key now e expires refused map h l = ground (arith, sweep-keeps key now e map h l)

-- No call takes away an entry that has not expired.
pub consume-keeps :
    (key other : Text) (now e expires : ℕ) (refused : ApiError) (map : Consumed)
    → lookup key map ≡ some e
    → now < e
    → lookup key (consume other now expires refused map).1 ≡ some e
unfolding consume
consume-keeps key other now e expires refused map h l =
    elim (Bool-cases (live_entry (lookup other (sweep now map)) now)) [
      | inl live ↦ rw live (sweep-keeps key now e map h l)
      | inr free ↦
          rw free
            (rw lookup-insert (ground (arith, eq_law other key, sweep-keeps key now e map h l)))
    ]

-- A successful call leaves its key behind, under the expiry that it gave.
pub consume-takes :
    (key : Text) (now expires : ℕ) (refused : ApiError) (map : Consumed)
    → (consume key now expires refused map).0 ≡ ok tt
    → lookup key (consume key now expires refused map).1 ≡ some expires
unfolding consume
consume-takes key now expires refused map h =
    elim (Bool-cases (live_entry (lookup key (sweep now map)) now)) [
      | inl live ↦ ground arith
      | inr free ↦ rw free (lookup_self key expires (sweep now map))
    ]
