-- ===== src/Phantom/Store/Sums.antt =====
-- How the number of envelopes and their bytes change with one queue.
use lqxp.Common.{
  ℕ, ◌+◌, ◌≤◌, ◌≡◌, refl, some, [], ◌∷◌, ◌++◌, arith, length, lookup, remove, insert, Distinct,
  Text, text_Eq,
}
use lqxp.Phantom.Store.{
  Queue, DeadDropStore, max_env_per_slot, max_total_envelopes, max_total_bytes, sum_queues,
  queue_bytes, live_count, live_bytes, drop_expired, trim_front,
}

-- No queue holds more than sixteen envelopes.
abbrev pub Small : DeadDropStore → Type 0
Small [] = Unit
Small ((slot, queue) ∷ slots) = (length queue ≤ max_env_per_slot) × Small slots

pub record StoreOk (store : DeadDropStore) : Type 0 where
  pub distinct : Distinct store
  pub small : Small store
  pub count : live_count store ≤ max_total_envelopes
  pub bytes : live_bytes store ≤ max_total_bytes

-- Queues only lose envelopes when they are popped.
pub length-drop_expired : (now : ℕ) (queue : Queue) → length (drop_expired now queue) ≤ length queue
unfolding drop_expired
length-drop_expired now [] = omega arith
length-drop_expired now (entry ∷ queue) = ground (arith, length-drop_expired now queue)

pub bytes-drop_expired :
    (now : ℕ) (queue : Queue) → queue_bytes (drop_expired now queue) ≤ queue_bytes queue
unfolding drop_expired queue_bytes
bytes-drop_expired now [] = omega arith
bytes-drop_expired now (entry ∷ queue) = ground (arith, bytes-drop_expired now queue)

pub length-trim_front :
    (queue : Queue)
    → (length (trim_front queue) ≤ max_env_per_slot) × (length (trim_front queue) ≤ length queue)
unfolding trim_front
length-trim_front [] = omega arith
length-trim_front (entry ∷ queue) = ground (arith, length-trim_front queue)

pub bytes-trim_front : (queue : Queue) → queue_bytes (trim_front queue) ≤ queue_bytes queue
unfolding trim_front queue_bytes
bytes-trim_front [] = omega arith
bytes-trim_front (entry ∷ queue) = ground (arith, bytes-trim_front queue)

pub bytes-append :
    (queue rest : Queue) → queue_bytes (queue ++ rest) ≡ queue_bytes queue + queue_bytes rest
unfolding queue_bytes
bytes-append [] rest = omega arith
bytes-append (entry ∷ queue) rest = omega (arith, bytes-append queue rest)

module _ (f : Queue → ℕ) where
  pub sum-remove-le :
      (slot : Text) (store : DeadDropStore) → sum_queues f (remove slot store) ≤ sum_queues f store
  unfolding sum_queues remove
  sum-remove-le slot [] = omega arith
  sum-remove-le slot ((other, queue) ∷ slots) = ground (arith, sum-remove-le slot slots)

  pub sum-remove :
      (slot : Text) (queue : Queue) (store : DeadDropStore)
      → lookup slot store ≡ some queue
      → f queue + sum_queues f (remove slot store) ≤ sum_queues f store
  unfolding sum_queues remove lookup
  sum-remove slot queue [] h = cc
  sum-remove slot queue ((other, q) ∷ slots) h =
      ground (arith, sum-remove-le slot slots, sum-remove slot queue slots)

  pub sum-insert :
      (slot : Text) (queue : Queue) (store : DeadDropStore)
      → sum_queues f (insert slot queue store) ≡ f queue + sum_queues f (remove slot store)
  unfolding sum_queues insert
  sum-insert slot queue store = refl

pub Small-remove : (slot : Text) (store : DeadDropStore) → Small store → Small (remove slot store)
unfolding remove
Small-remove slot [] k = tt
Small-remove slot ((other, queue) ∷ slots) k = ground (arith, Small-remove slot slots k.1)

pub Small-insert :
    (slot : Text) (queue : Queue) (store : DeadDropStore)
    → length queue ≤ max_env_per_slot
    → Small store
    → Small (insert slot queue store)
unfolding insert
Small-insert slot queue store l k = (l, Small-remove slot store k)

pub Small-lookup :
    (slot : Text) (queue : Queue) (store : DeadDropStore)
    → Small store
    → lookup slot store ≡ some queue
    → length queue ≤ max_env_per_slot
unfolding lookup
Small-lookup slot queue [] k h = cc
Small-lookup slot queue ((other, q) ∷ slots) k h = ground (arith, Small-lookup slot queue slots k.1)
