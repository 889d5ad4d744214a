-- ===== src/Phantom/Store/Evict.antt =====
-- The loop of `deposit` that makes room.
use lqxp.Common.{
  ℕ, zero, suc, ◌+◌, ◌≤◌, ◌≡◌, refl, inl, inr, Option, none, some, [], ◌∷◌, arith, ltb, Bool-cases,
  eq_law, eq_refl, length, lookup, remove, Distinct, remove-Distinct, insert-Distinct, Text,
  text_Eq,
}
use lqxp.Phantom.Store.{
  StoredEnvelope, Queue, DeadDropStore, max_env_per_slot, max_total_envelopes, sum_queues,
  queue_bytes, live_count, live_bytes, oldest_slot, earlier, put_back, pop_front_of, pop_slot,
  evict,
}
use mathlib.Core.Path.{subst}
use lqxp.Phantom.Store.Sums.{
  Small, sum-remove, sum-insert, Small-remove, Small-insert, Small-lookup,
}

-- What the loop finds: a slot whose queue has a front.
FrontIn : DeadDropStore → Option (Text × ℕ) → Type 0
FrontIn store none = live_count store ≡ 0
FrontIn store (some (slot, at)) =
    (entry : StoredEnvelope) × (queue : Queue) × (lookup slot store ≡ some (entry ∷ queue))

cons-FrontIn :
    (slot : Text) (queue : Queue) (slots : DeadDropStore) (found : Option (Text × ℕ))
    → lookup slot slots ≡ none
    → FrontIn slots found
    → (found ≡ none → queue ≡ [])
    → FrontIn ((slot, queue) ∷ slots) found
unfolding FrontIn lookup sum_queues
cons-FrontIn slot queue slots none absent k e = ground (arith, k, e)
cons-FrontIn slot queue slots (some (other, at)) absent (front, rest, k) e =
    (front, rest, ground (arith, eq_law slot other, k))

first_FrontIn :
    (slot : Text) (entry : StoredEnvelope) (queue : Queue) (slots : DeadDropStore)
    → FrontIn ((slot, entry ∷ queue) ∷ slots) (some (slot, entry.expires_at))
unfolding FrontIn lookup
first_FrontIn slot entry queue slots = (entry, queue, ground (arith, eq_refl slot))

earlier-FrontIn :
    (slot : Text) (entry : StoredEnvelope) (queue : Queue) (slots : DeadDropStore)
    (found : Option (Text × ℕ))
    → lookup slot slots ≡ none
    → FrontIn slots found
    → FrontIn ((slot, entry ∷ queue) ∷ slots) (some (earlier slot entry.expires_at found))
unfolding FrontIn earlier lookup
earlier-FrontIn slot entry queue slots none absent k = first_FrontIn slot entry queue slots
earlier-FrontIn slot entry queue slots (some (other, at)) absent (front, rest, k) =
    elim (Bool-cases (ltb at entry.expires_at)) [
      | inl b ↦
          let same : ◌≡◌ {A = Text × ℕ} (other, at)
              (earlier slot entry.expires_at (some (other, at))) =
            ground (arith, b) in
          subst (λ f. FrontIn ((slot, entry ∷ queue) ∷ slots) (some f)) same
            (cons-FrontIn slot (entry ∷ queue) slots (some (other, at)) absent (front, rest, k)
              (λ e. cc))
      | inr b ↦
          let same : ◌≡◌ {A = Text × ℕ} (slot, entry.expires_at)
              (earlier slot entry.expires_at (some (other, at))) =
            ground (arith, b) in
          subst (λ f. FrontIn ((slot, entry ∷ queue) ∷ slots) (some f)) same
            (first_FrontIn slot entry queue slots)
    ]

oldest_slot-FrontIn : (store : DeadDropStore) → Distinct store → FrontIn store (oldest_slot store)
unfolding FrontIn oldest_slot sum_queues
oldest_slot-FrontIn [] d = refl
oldest_slot-FrontIn ((slot, []) ∷ slots) d =
    cons-FrontIn slot [] slots (oldest_slot slots) d.0 (oldest_slot-FrontIn slots d.1) (λ _. refl)
oldest_slot-FrontIn ((slot, entry ∷ queue) ∷ slots) d =
    earlier-FrontIn slot entry queue slots (oldest_slot slots) d.0 (oldest_slot-FrontIn slots d.1)

pub put_back-Distinct :
    (slot : Text) (queue : Queue) (store : DeadDropStore)
    → Distinct store
    → Distinct (put_back slot queue store)
unfolding put_back
put_back-Distinct slot [] store d = remove-Distinct slot store d
put_back-Distinct slot (entry ∷ queue) store d = insert-Distinct slot (entry ∷ queue) store d

pub put_back-Small :
    (slot : Text) (queue : Queue) (store : DeadDropStore)
    → length queue ≤ max_env_per_slot
    → Small store
    → Small (put_back slot queue store)
unfolding put_back
put_back-Small slot [] store l k = Small-remove slot store k
put_back-Small slot (entry ∷ queue) store l k = Small-insert slot (entry ∷ queue) store l k

pub sum-put_back :
    (f : Queue → ℕ) (slot : Text) (queue : Queue) (store : DeadDropStore)
    → sum_queues f (put_back slot queue store) ≤ f queue + sum_queues f (remove slot store)
unfolding put_back
sum-put_back f slot [] store = omega arith
sum-put_back f slot (entry ∷ queue) store = omega (arith, sum-insert f slot (entry ∷ queue) store)

-- What every turn of the loop keeps.
pub record Kept (before after : DeadDropStore) : Type 0 where
  pub distinct : Distinct after
  pub small : Small after
  pub count : live_count after ≤ live_count before
  pub bytes : live_bytes after ≤ live_bytes before

Kept-refl : (store : DeadDropStore) → Distinct store → Small store → Kept store store
Kept-refl store d k = record { distinct = d; small = k; count = omega arith; bytes = omega arith }

Kept-trans : {a b c : DeadDropStore} → Kept a b → Kept b c → Kept a c
Kept-trans {a} {b} {c} p q = record {
  distinct = q.distinct;
  small = q.small;
  count = omega (arith, p.count, q.count);
  bytes = omega (arith, p.bytes, q.bytes);
}

pop_slot-Kept :
    (store : DeadDropStore) (slot : Text) (at : ℕ) (entry : StoredEnvelope) (queue : Queue)
    → Distinct store
    → Small store
    → lookup slot store ≡ some (entry ∷ queue)
    → Kept store (pop_slot (some (slot, at)) store)
      × (suc (live_count (pop_slot (some (slot, at)) store)) ≤ live_count store)
unfolding pop_slot pop_front_of queue_bytes
pop_slot-Kept store slot at entry queue d k h = rw h (
  record {
    distinct = put_back-Distinct slot queue store d;
    small =
        put_back-Small slot queue store (omega (arith, Small-lookup slot (entry ∷ queue) store k h))
          k;
    count = omega (
      arith,
      sum-put_back length slot queue store,
      sum-remove length slot (entry ∷ queue) store h,
    );
    bytes = omega (
      arith,
      sum-put_back queue_bytes slot queue store,
      sum-remove queue_bytes slot (entry ∷ queue) store h,
    );
  },
  omega
      (arith, sum-put_back length slot queue store, sum-remove length slot (entry ∷ queue) store h),
)

evict_turn :
    (fuel : ℕ) (store : DeadDropStore) (found : Option (Text × ℕ))
    → Distinct store
    → Small store
    → live_count store ≤ suc fuel
    → FrontIn store found
    → oldest_slot store ≡ found
    → ((next : DeadDropStore)
        → Distinct next
        → Small next
        → live_count next ≤ fuel
        → Kept next (evict fuel next) × (live_count (evict fuel next) ≤ max_total_envelopes))
    → Kept store (evict (suc fuel) store)
      × (live_count (evict (suc fuel) store) ≤ max_total_envelopes)
unfolding evict FrontIn
evict_turn fuel store none d k l front e again =
    elim (Bool-cases (ltb max_total_envelopes (live_count store))) [
      | inl b ↦ rw (b, e) (Kept-refl store d k, omega (arith, front))
      | inr b ↦ rw b (Kept-refl store d k, ground (arith, b))
    ]
evict_turn fuel store (some (slot, at)) d k l (entry, queue, h) e again =
    elim (Bool-cases (ltb max_total_envelopes (live_count store))) [
      | inl b ↦
          let (popped, less) = pop_slot-Kept store slot at entry queue d k h in
          let (rest, bound) =
            again (pop_slot (some (slot, at)) store) popped.distinct popped.small
              (omega (arith, less, l)) in
          rw (b, e) (Kept-trans popped rest, bound)
      | inr b ↦ rw b (Kept-refl store d k, ground (arith, b))
    ]

-- With fuel for every envelope the loop ends in the bound.
pub evict-Kept :
    (fuel : ℕ) (store : DeadDropStore)
    → Distinct store
    → Small store
    → live_count store ≤ fuel
    → Kept store (evict fuel store) × (live_count (evict fuel store) ≤ max_total_envelopes)
unfolding evict
evict-Kept zero store d k l = (Kept-refl store d k, omega (arith, l))
evict-Kept (suc fuel) store d k l =
    evict_turn fuel store (oldest_slot store) d k l (oldest_slot-FrontIn store d) refl
      (evict-Kept fuel)
