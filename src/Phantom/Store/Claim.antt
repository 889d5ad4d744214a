-- ===== src/Phantom/Store/Claim.antt =====
-- What `claim` takes from the dead-drop store, and how `sweep_expired` counts.
use lqxp.Common.{
  ℕ, ◌+◌, ◌<◌, ◌≡◌, refl, sym, ap, ◌∙◌, inl, inr, Bool, true, none, some, [], ◌∷◌, ◌++◌, arith, ltb,
  leb, Bool-cases, Option-cases, eq_refl, length, all, unwrap_or, lookup, insert, lookup-remove,
  lookup_self, Text, text_Eq,
}
use lqxp.Phantom.Store.{
  PhantomEnvelope, StoredEnvelope, Queue, DeadDropStore, max_total_envelopes, sum_queues,
  queue_bytes, live_count, drop_expired, sweep_expired, trim_front, put_back, stored, deposit,
  try_deposit, claim_from, claim_in, claim, envelope_ttl_ms,
}
use lqxp.Phantom.Store.Sums.{sum-insert, sum-remove-le, length-drop_expired}

abbrev pub has_expired : ℕ → StoredEnvelope → Bool
has_expired now entry = leb entry.expires_at now

-- A queue is its expired front part and what is left.
drop_expired_split :
    (now : ℕ) (queue : Queue)
    → (dead : Queue) × (queue ≡ dead ++ drop_expired now queue)
      × (all (has_expired now) dead ≡ true)
unfolding drop_expired all
drop_expired_split now [] = ([], refl, refl)
drop_expired_split now (entry ∷ queue) =
    let (dead, e, a) = drop_expired_split now queue in
    elim (Bool-cases (leb entry.expires_at now)) [
      | inl b ↦ (entry ∷ dead, ground (arith, b, e), ground (arith, b, a))
      | inr b ↦ ([], ground (arith, b), refl)
    ]

drop_expired_live :
    (now : ℕ) (queue rest : Queue) (entry : StoredEnvelope)
    → drop_expired now queue ≡ entry ∷ rest
    → now < entry.expires_at
unfolding drop_expired
drop_expired_live now [] rest entry h = cc
drop_expired_live now (front ∷ queue) rest entry h =
    ground (arith, drop_expired_live now queue rest entry)

-- The queue of a slot, empty where the slot is missing.
abbrev pub queue_of : Text → DeadDropStore → Queue
queue_of slot store = unwrap_or (lookup slot store) []

put_back_queue :
    (slot : Text) (queue : Queue) (store : DeadDropStore)
    → queue_of slot (put_back slot queue store) ≡ queue
unfolding put_back
put_back_queue slot [] store = ground (arith, lookup-remove slot slot store, eq_refl slot)
put_back_queue slot (entry ∷ queue) store = ground (arith, lookup_self slot (entry ∷ queue) store)

claim_from_lem :
    (slot : Text) (live : Queue) (store : DeadDropStore) (envelope : PhantomEnvelope)
    → (claim_from slot live store).0 ≡ some envelope
    → (entry : StoredEnvelope) × (rest : Queue) × (live ≡ entry ∷ rest)
      × (entry.envelope ≡ envelope)
      × (queue_of slot (claim_from slot live store).1 ≡ rest)
unfolding claim_from
claim_from_lem slot [] store envelope h = cc
claim_from_lem slot (entry ∷ rest) store envelope h =
    (entry, rest, refl, ground (arith, h), put_back_queue slot rest store)

claim_of :
    (slot : Text) (now : ℕ) (store : DeadDropStore) (envelope : PhantomEnvelope)
    → (claim slot now store).0 ≡ some envelope
    → (queue : Queue) × (lookup slot store ≡ some queue)
      × (claim slot now store ≡ claim_from slot (drop_expired now queue) store)
unfolding claim claim_in
claim_of slot now store envelope h = elim (Option-cases (lookup slot store)) [
  | inl e ↦ ground (arith, e, h)
  | inr (queue, e) ↦ (queue, e, rw e refl)
]

-- If `claim` at the time `now` answers an envelope, then the slot's queue is a part whose envelopes
-- have all expired by `now`, then an entry that has not and holds that envelope, then a rest; and
-- the slot's queue afterwards is that rest.
pub claim_takes_oldest_live :
    (slot : Text) (now : ℕ) (store : DeadDropStore) (envelope : PhantomEnvelope)
    → (claim slot now store).0 ≡ some envelope
    → (dead : Queue) × (entry : StoredEnvelope) × (rest : Queue) × (lookup slot store
        ≡ some (dead ++ entry ∷ rest))
      × (all (has_expired now) dead ≡ true)
      × (now < entry.expires_at)
      × (entry.envelope ≡ envelope)
      × (queue_of slot (claim slot now store).1 ≡ rest)
claim_takes_oldest_live slot now store envelope h =
    let (queue, stored_, e) = claim_of slot now store envelope h in
    let (entry, rest, live, same, left) =
      claim_from_lem slot (drop_expired now queue) store envelope (ap (λ r. r.0) (sym e) ∙ h) in
    let (dead, parts, expired) = drop_expired_split now queue in
    (
      dead,
      entry,
      rest,
      ground (arith, stored_, parts, live),
      expired,
      drop_expired_live now queue rest entry live,
      same,
      ap (λ r. queue_of slot r.1) e ∙ left,
    )

-- `sweep_expired` answers the number of envelopes that it removed.
pub sweep_expired_counts :
    (now : ℕ) (store : DeadDropStore)
    → (sweep_expired now store).0 + live_count (sweep_expired now store).1 ≡ live_count store
unfolding sweep_expired sum_queues
sweep_expired_counts now [] = refl
sweep_expired_counts now ((slot, queue) ∷ slots) =
    ground (arith, sweep_expired_counts now slots, length-drop_expired now queue)

deposit_in_empty :
    (envelope : PhantomEnvelope) (now : ℕ) (store : DeadDropStore)
    → lookup envelope.slot_id store ≡ none
    → live_count store < max_total_envelopes
    → deposit envelope now store ≡ insert envelope.slot_id (stored envelope now ∷ []) store
unfolding deposit trim_front
deposit_in_empty envelope now store h room =
    let filled = insert envelope.slot_id (stored envelope now ∷ []) store in
    elim (Bool-cases (ltb max_total_envelopes (live_count filled))) [
      | inl b ↦ absurd (
          ground (
            arith,
            b,
            room,
            sum-insert length envelope.slot_id (stored envelope now ∷ []) store,
            sum-remove-le length envelope.slot_id store,
          ))
      | inr b ↦ rw h (rw b refl)
    ]

claim_only_entry :
    (envelope : PhantomEnvelope) (now later : ℕ) (store : DeadDropStore)
    → later < now + envelope_ttl_ms
    → (claim envelope.slot_id later (insert envelope.slot_id (stored envelope now ∷ []) store)).0
      ≡ some envelope
unfolding claim claim_in claim_from drop_expired
claim_only_entry envelope now later store l =
    rw (lookup_self envelope.slot_id (stored envelope now ∷ []) store) (ground (arith, l))

-- If a deposit into a slot that is missing is accepted while the store holds fewer than 100,000
-- envelopes, then a claim of that slot less than 24 hours after answers the deposited envelope.
pub deposit_then_claim :
    (envelope : PhantomEnvelope) (now later : ℕ) (store : DeadDropStore)
    → (try_deposit envelope now store).0 ≡ true
    → lookup envelope.slot_id store ≡ none
    → live_count store < max_total_envelopes
    → later < now + envelope_ttl_ms
    → (claim envelope.slot_id later (try_deposit envelope now store).1).0 ≡ some envelope
unfolding try_deposit
deposit_then_claim envelope now later store accepted h room l =
    elim (Bool-cases (ltb 67108864 (sum_queues queue_bytes store + length envelope.ct))) [
      | inl b ↦ ground (arith, b, accepted)
      | inr b ↦ rw b (
          rw (deposit_in_empty envelope now store h room)
            (claim_only_entry envelope now later store l))
    ]
