-- ===== src/Phantom/Store/Bounds.antt =====
-- The bounds of the dead-drop store, under every operation.
use lqxp.Common.{
  ℕ, ◌+◌, ◌≤◌, ◌≡◌, refl, inl, inr, none, some, List, [], ◌∷◌, ◌++◌, arith, ltb, Bool-cases,
  Option-cases, length, is_empty, unwrap_or, lookup, insert, Distinct, insert-Distinct, Text,
  text_Eq,
}
use lqxp.Phantom.Store.{
  PhantomEnvelope, Queue, DeadDropStore, max_total_envelopes, max_total_bytes, sum_queues,
  queue_bytes, live_count, live_bytes, drop_expired, sweep_expired, trim_front, put_back, stored,
  deposit, try_deposit, claim_from, claim_in, claim,
}
use lqxp.Phantom.Store.Sums.{
  Small, length-drop_expired, bytes-drop_expired, length-trim_front, bytes-trim_front, bytes-append,
  sum-remove-le, sum-remove, sum-insert, Small-insert, Small-lookup,
}
use lqxp.Phantom.Store.Evict.{Kept, evict-Kept, put_back-Distinct, put_back-Small, sum-put_back}

pub record StoreOk (store : DeadDropStore) : Type 0 where
  pub distinct : Distinct store
  pub small : Small store
  pub count : live_count store ≤ max_total_envelopes
  pub bytes : live_bytes store ≤ max_total_bytes

sweep_expired-absent :
    (now : ℕ) (slot : Text) (store : DeadDropStore)
    → lookup slot store ≡ none
    → lookup slot (sweep_expired now store).1 ≡ none
unfolding sweep_expired lookup
sweep_expired-absent now slot [] h = refl
sweep_expired-absent now slot ((other, queue) ∷ slots) h =
    ground (arith, sweep_expired-absent now slot slots)

sweep_expired-Kept :
    (now : ℕ) (store : DeadDropStore)
    → Distinct store
    → Small store
    → Kept store (sweep_expired now store).1
unfolding sweep_expired sum_queues
sweep_expired-Kept now [] d k = record {
  distinct = tt;
  small = tt;
  count = omega arith;
  bytes = omega arith;
}
sweep_expired-Kept now ((slot, queue) ∷ slots) d k =
    let rest = sweep_expired-Kept now slots d.1 k.1 in
    let shorter = length-drop_expired now queue in
    let lighter = bytes-drop_expired now queue in
    let absent = sweep_expired-absent now slot slots d.0 in
    elim (Bool-cases (is_empty (drop_expired now queue))) [
      | inl b ↦ rw b (record {
        distinct = rest.distinct;
        small = rest.small;
        count = omega (arith, rest.count);
        bytes = omega (arith, rest.bytes);
      })
      | inr b ↦ rw b (record {
        distinct = (absent, rest.distinct);
        small = (omega (arith, shorter, k.0), rest.small);
        count = omega (arith, rest.count, shorter);
        bytes = omega (arith, rest.bytes, lighter);
      })
    ]

-- The queue that a deposit writes.
deposited : PhantomEnvelope → ℕ → DeadDropStore → Queue
deposited envelope now store =
    trim_front (unwrap_or (lookup envelope.slot_id store) [] ++ stored envelope now ∷ [])

filled_bytes :
    (envelope : PhantomEnvelope) (now : ℕ) (store : DeadDropStore)
    → live_bytes (insert envelope.slot_id (deposited envelope now store) store)
      ≤ live_bytes store + length envelope.ct
unfolding deposited queue_bytes
filled_bytes envelope now store =
    let slot = envelope.slot_id in
    elim (Option-cases (lookup slot store)) [
      | inl e ↦ rw e (
          omega (
            arith,
            sum-insert queue_bytes slot (trim_front (stored envelope now ∷ [])) store,
            bytes-trim_front (stored envelope now ∷ []),
            sum-remove-le queue_bytes slot store,
          ))
      | inr (queue, e) ↦ rw e (
          omega (
            arith,
            sum-insert queue_bytes slot (trim_front (queue ++ stored envelope now ∷ [])) store,
            bytes-trim_front (queue ++ stored envelope now ∷ []),
            bytes-append queue (stored envelope now ∷ []),
            sum-remove queue_bytes slot queue store e,
          ))
    ]

deposit-Kept :
    (envelope : PhantomEnvelope) (now : ℕ) (store : DeadDropStore)
    → Distinct store
    → Small store
    → Distinct (deposit envelope now store)
      × Small (deposit envelope now store)
      × (live_count (deposit envelope now store) ≤ max_total_envelopes)
      × (live_bytes (deposit envelope now store) ≤ live_bytes store + length envelope.ct)
unfolding deposit deposited
deposit-Kept envelope now store d k =
    let slot = envelope.slot_id in
    let queue = unwrap_or (lookup slot store) [] ++ stored envelope now ∷ [] in
    let filled = insert slot (trim_front queue) store in
    let distinct = insert-Distinct slot (trim_front queue) store d in
    let small = Small-insert slot (trim_front queue) store (length-trim_front queue).0 k in
    let bytes = filled_bytes envelope now store in
    let swept = sweep_expired-Kept now filled distinct small in
    let (kept, bound) =
      evict-Kept (live_count (sweep_expired now filled).1) (sweep_expired now filled).1
        swept.distinct swept.small (omega arith) in
    elim (Bool-cases (ltb max_total_envelopes (live_count filled))) [
      | inl b ↦
          rw b (kept.distinct, kept.small, bound, omega (arith, kept.bytes, swept.bytes, bytes))
      | inr b ↦ rw b (distinct, small, ground (arith, b), bytes)
    ]

try_deposit-StoreOk :
    (envelope : PhantomEnvelope) (now : ℕ) (store : DeadDropStore)
    → StoreOk store
    → StoreOk (try_deposit envelope now store).1
unfolding try_deposit
try_deposit-StoreOk envelope now store good =
    let (distinct, small, count, bytes) =
      deposit-Kept envelope now store good.distinct good.small in
    elim (Bool-cases (ltb max_total_bytes (live_bytes store + length envelope.ct))) [
      | inl b ↦ rw b good
      | inr b ↦ rw b (record {
        distinct = distinct;
        small = small;
        count = count;
        bytes = ground (arith, b, bytes);
      })
    ]

put_back-StoreOk :
    (slot : Text) (queue kept : Queue) (store : DeadDropStore)
    → StoreOk store
    → lookup slot store ≡ some queue
    → length kept ≤ length queue
    → queue_bytes kept ≤ queue_bytes queue
    → StoreOk (put_back slot kept store) × StoreOk (insert slot kept store)
put_back-StoreOk slot queue kept store good h l b =
    let room : length kept ≤ 16 = omega (arith, l, Small-lookup slot queue store good.small h) in
    let fewer = sum-remove length slot queue store h in
    let lighter = sum-remove queue_bytes slot queue store h in
    (
      record {
        distinct = put_back-Distinct slot kept store good.distinct;
        small = put_back-Small slot kept store room good.small;
        count = omega (arith, fewer, l, good.count, sum-put_back length slot kept store);
        bytes = omega (arith, lighter, b, good.bytes, sum-put_back queue_bytes slot kept store);
      },
      record {
        distinct = insert-Distinct slot kept store good.distinct;
        small = Small-insert slot kept store room good.small;
        count = omega (arith, fewer, l, good.count, sum-insert length slot kept store);
        bytes = omega (arith, lighter, b, good.bytes, sum-insert queue_bytes slot kept store);
      },
    )

claimed-StoreOk :
    (slot : Text) (queue live : Queue) (store : DeadDropStore)
    → StoreOk store
    → lookup slot store ≡ some queue
    → length live ≤ length queue
    → queue_bytes live ≤ queue_bytes queue
    → StoreOk (claim_from slot live store).1
unfolding claim_from queue_bytes
claimed-StoreOk slot queue [] store good h l b = (put_back-StoreOk slot queue [] store good h l b).1
claimed-StoreOk slot queue (entry ∷ live) store good h l b =
    (put_back-StoreOk slot queue live store good h (omega (arith, l)) (omega (arith, b))).0

claim-StoreOk :
    (slot : Text) (now : ℕ) (store : DeadDropStore)
    → StoreOk store
    → StoreOk (claim slot now store).1
unfolding claim claim_in
claim-StoreOk slot now store good = elim (Option-cases (lookup slot store)) [
  | inl e ↦ rw e good
  | inr (queue, e) ↦ rw e (
      claimed-StoreOk slot queue (drop_expired now queue) store good e
        (length-drop_expired now queue) (bytes-drop_expired now queue))
]

sweep_expired-StoreOk :
    (now : ℕ) (store : DeadDropStore) → StoreOk store → StoreOk (sweep_expired now store).1
sweep_expired-StoreOk now store good =
    let kept = sweep_expired-Kept now store good.distinct good.small in
    record {
      distinct = kept.distinct;
      small = kept.small;
      count = omega (arith, kept.count, good.count);
      bytes = omega (arith, kept.bytes, good.bytes);
    }

-- One use of the store, at a time.
pub data Use : Type 0 where
  depositing : PhantomEnvelope → ℕ → Use
  claiming : Text → ℕ → Use
  sweeping : ℕ → Use

apply_use : Use → DeadDropStore → DeadDropStore
apply_use (depositing envelope now) store = (try_deposit envelope now store).1
apply_use (claiming slot now) store = (claim slot now store).1
apply_use (sweeping now) store = (sweep_expired now store).1

unfoldable pub after_uses : List Use → DeadDropStore → DeadDropStore
unfolding apply_use
after_uses [] store = store
after_uses (use_ ∷ uses) store = after_uses uses (apply_use use_ store)

use-StoreOk : (use_ : Use) (store : DeadDropStore) → StoreOk store → StoreOk (apply_use use_ store)
unfolding apply_use
use-StoreOk (depositing envelope now) store good = try_deposit-StoreOk envelope now store good
use-StoreOk (claiming slot now) store good = claim-StoreOk slot now store good
use-StoreOk (sweeping now) store good = sweep_expired-StoreOk now store good

uses-StoreOk :
    (uses : List Use) (store : DeadDropStore) → StoreOk store → StoreOk (after_uses uses store)
unfolding after_uses
uses-StoreOk [] store good = good
uses-StoreOk (use_ ∷ uses) store good =
    uses-StoreOk uses (apply_use use_ store) (use-StoreOk use_ store good)

-- After any sequence of `try_deposit`, `claim` and `sweep_expired` on a new store, at any times,
-- each slot has one queue of at most 16 envelopes, and the store holds at most 100,000 envelopes
-- and at most 64 MiB of ciphertext.
pub store_bounds : (uses : List Use) → StoreOk (after_uses uses [])
unfolding sum_queues
store_bounds uses =
    uses-StoreOk uses []
      (record { distinct = tt; small = tt; count = omega arith; bytes = omega arith })
