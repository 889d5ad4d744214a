-- ===== src/Phantom/Store.antt =====
-- `DeadDropStore` of services/phantom.rs: envelopes in queues by slot, with a lifetime, a bound on
-- each queue, a bound on the number of envelopes and one on their bytes. A queue's front is the
-- head of its list; the order of the slots stands for the iteration order of the hash map.

pub mod Sums
pub mod Evict
pub mod Bounds
pub mod Claim
use lqxp.Common.{
  ℕ, zero, suc, ◌+◌, ◌-◌, ◌/◌, Bool, true, false, ◌&&◌, Option, none, some, List, [], ◌∷◌, ◌++◌,
  map, ltb, leb, if◌then◌else◌, length, is_empty, Assoc, is_some, unwrap_or, values, lookup, remove,
  insert, Text, ◌>>=◌, ◌>>◌, text_Eq,
}

-- `PhantomEnvelope` of core/models.rs.
pub record PhantomEnvelope : Type 0 where
  pub pv : ℕ
  pub slot_id : Text
  pub recipient_fp : Text
  pub sender_hint : Text
  pub bucket : ℕ
  pub ct : Text

pub record StoredEnvelope : Type 0 where
  pub envelope : PhantomEnvelope
  pub expires_at : ℕ

abbrev pub Queue : Type 0
Queue = List StoredEnvelope

abbrev pub DeadDropStore : Type 0
DeadDropStore = Assoc Text Queue

abbrev pub envelope_ttl_ms : ℕ
envelope_ttl_ms = 86400000

abbrev pub max_env_per_slot : ℕ
max_env_per_slot = 16

abbrev pub max_total_envelopes : ℕ
max_total_envelopes = 100000

abbrev pub max_total_bytes : ℕ
max_total_bytes = 67108864

-- `self.slots.values().map(measure).sum()`
unfoldable pub sum_queues : (Queue → ℕ) → DeadDropStore → ℕ
sum_queues measure [] = 0
sum_queues measure ((slot, queue) ∷ slots) = measure queue + sum_queues measure slots

unfoldable pub queue_bytes : Queue → ℕ
queue_bytes [] = 0
queue_bytes (entry ∷ queue) = length entry.envelope.ct + queue_bytes queue

abbrev pub live_count : DeadDropStore → ℕ
live_count store = sum_queues length store

abbrev pub live_bytes : DeadDropStore → ℕ
live_bytes store = sum_queues queue_bytes store

-- The `while` loop that pops expired envelopes off the front.
unfoldable pub drop_expired : ℕ → Queue → Queue
drop_expired now [] = []
drop_expired now (entry ∷ queue) =
    if leb entry.expires_at now then drop_expired now queue else entry ∷ queue

-- `sweep_expired`, with the number of envelopes that it removed.
unfoldable pub sweep_expired : ℕ → DeadDropStore → ℕ × DeadDropStore
unfolding drop_expired
sweep_expired now [] = (0, [])
sweep_expired now ((slot, queue) ∷ slots) =
    let kept = drop_expired now queue in
    let (removed, rest) = sweep_expired now slots in
    (length queue - length kept + removed, if is_empty kept then rest else (slot, kept) ∷ rest)

-- `while queue.len() > MAX_ENV_PER_SLOT { queue.pop_front(); }`
unfoldable pub trim_front : Queue → Queue
trim_front [] = []
trim_front (entry ∷ queue) =
    if ltb max_env_per_slot (suc (length queue)) then trim_front queue else entry ∷ queue

-- The slot whose front expires first, the first of them where several do (`min_by_key`).
earlier : Text → ℕ → Option (Text × ℕ) → Text × ℕ
earlier slot expires_at none = (slot, expires_at)
earlier slot expires_at (some (other, at)) =
    if ltb at expires_at then (other, at) else (slot, expires_at)

unfoldable pub oldest_slot : DeadDropStore → Option (Text × ℕ)
unfolding earlier
oldest_slot [] = none
oldest_slot ((slot, []) ∷ slots) = oldest_slot slots
oldest_slot ((slot, entry ∷ queue) ∷ slots) =
    some (earlier slot entry.expires_at (oldest_slot slots))

-- A queue is written back, or its slot removed where it became empty.
unfoldable pub put_back : Text → Queue → DeadDropStore → DeadDropStore
put_back slot [] store = remove slot store
put_back slot (entry ∷ queue) store = insert slot (entry ∷ queue) store

pop_front_of : Text → Option Queue → DeadDropStore → DeadDropStore
unfolding put_back
pop_front_of slot none store = store
pop_front_of slot (some []) store = remove slot store
pop_front_of slot (some (entry ∷ queue)) store = put_back slot queue store

pop_slot : Option (Text × ℕ) → DeadDropStore → DeadDropStore
unfolding pop_front_of
pop_slot none store = store
pop_slot (some (slot, at)) store = pop_front_of slot (lookup slot store) store

-- The loop that makes room: each turn pops one envelope, so the number of envelopes is fuel enough.
unfoldable pub evict : ℕ → DeadDropStore → DeadDropStore
unfolding pop_slot oldest_slot
evict zero store = store
evict (suc fuel) store =
    let rest = evict fuel (pop_slot (oldest_slot store) store) in
    if ltb max_total_envelopes (live_count store) && is_some (oldest_slot store)
    then rest
    else store

abbrev pub stored : PhantomEnvelope → ℕ → StoredEnvelope
stored envelope now = record { envelope = envelope; expires_at = now + envelope_ttl_ms }

unfoldable pub deposit : PhantomEnvelope → ℕ → DeadDropStore → DeadDropStore
unfolding sum_queues trim_front sweep_expired evict
deposit envelope now store =
    let slot = unwrap_or (lookup envelope.slot_id store) [] in
    let queue = trim_front (slot ++ stored envelope now ∷ []) in
    let filled = insert envelope.slot_id queue store in
    if ltb max_total_envelopes (live_count filled)
    then (let swept = (sweep_expired now filled).1 in evict (live_count swept) swept)
    else filled

unfoldable pub try_deposit : PhantomEnvelope → ℕ → DeadDropStore → Bool × DeadDropStore
unfolding sum_queues queue_bytes deposit
try_deposit envelope now store =
    if ltb max_total_bytes (live_bytes store + length envelope.ct)
    then (false, store)
    else (true, deposit envelope now store)

claim_from : Text → Queue → DeadDropStore → Option PhantomEnvelope × DeadDropStore
unfolding put_back
claim_from slot [] store = (none, insert slot [] store)
claim_from slot (entry ∷ queue) store = (some entry.envelope, put_back slot queue store)

claim_in : Text → ℕ → Option Queue → DeadDropStore → Option PhantomEnvelope × DeadDropStore
unfolding claim_from drop_expired
claim_in slot now none store = (none, store)
claim_in slot now (some queue) store = claim_from slot (drop_expired now queue) store

-- `claim`: where every envelope of the slot has expired, the `?` of `pop_front()?` leaves the
-- empty queue in the map.
unfoldable pub claim : Text → ℕ → DeadDropStore → Option PhantomEnvelope × DeadDropStore
unfolding claim_in
claim slot now store = claim_in slot now (lookup slot store) store
