-- ===== src/Phantom/PrivacyPass/Nonces.antt =====
-- The bound of the nonce store of services/privacy_pass.rs, and the states of a nonce.
use lqxp.Common.{
  ℕ, zero, suc, ◌≤◌, ◌<◌, ◌≡◌, refl, inl, inr, true, false, Option, none, some, List, [], ◌∷◌,
  arith, ltb, leb, Bool-cases, Option-cases, ◌==◌, eq_refl, length, Assoc, lookup, remove, insert,
  contains_key, lookup_self, Distinct, remove-Distinct, insert-Distinct, length-remove-le,
  length-remove, Text, text_Eq,
}
use lqxp.Phantom.PrivacyPass.{
  NonceState, reserved, committed, NonceEntry, MemoryNonceStore, max_nonce_store_entries, older,
  oldest, remove_oldest, make_room, reserve, commit_entry, commit, release_entry, release,
}

-- What `min_by_key` finds: an entry, unless there is none.
Present : Assoc Text NonceEntry → Option (Text × ℕ) → Type 0
Present entries none = length entries ≡ 0
Present entries (some (key, seq)) = (entry : NonceEntry) × (lookup key entries ≡ some entry)

older-Present :
    (front : Text) (entry : NonceEntry) (entries : Assoc Text NonceEntry)
    (found : Option (Text × ℕ))
    → Present entries found
    → Present ((front, entry) ∷ entries) (some (older front entry.seq found))
unfolding Present older lookup
older-Present front entry entries none p = (entry, ground (arith, eq_refl front))
older-Present front entry entries (some (other, at)) (found, p) =
    elim (Bool-cases (ltb at entry.seq)) [
      | inl b ↦ elim (Bool-cases (front == other)) [
        | inl same ↦ (entry, ground (arith, b, same))
        | inr differs ↦ (found, ground (arith, b, differs, p))
      ]
      | inr b ↦ (entry, ground (arith, b, eq_refl front))
    ]

oldest-Present : (entries : Assoc Text NonceEntry) → Present entries (oldest entries)
unfolding Present oldest
oldest-Present [] = refl
oldest-Present ((front, entry) ∷ entries) =
    older-Present front entry entries (oldest entries) (oldest-Present entries)

-- With fuel for every entry the loop leaves room for one more.
make_room_turn :
    (fuel : ℕ) (entries : Assoc Text NonceEntry) (found : Option (Text × ℕ))
    → Distinct entries
    → length entries ≤ suc fuel
    → Present entries found
    → oldest entries ≡ found
    → ((next : Assoc Text NonceEntry)
        → Distinct next
        → length next ≤ fuel
        → Distinct (make_room fuel next) × (length (make_room fuel next) < max_nonce_store_entries))
    → Distinct (make_room (suc fuel) entries)
      × (length (make_room (suc fuel) entries) < max_nonce_store_entries)
unfolding make_room Present remove_oldest
make_room_turn fuel entries none d l p e again =
    elim (Bool-cases (leb max_nonce_store_entries (length entries))) [
      | inl b ↦ rw (b, e) (d, omega (arith, p))
      | inr b ↦ rw b (d, ground (arith, b))
    ]
make_room_turn fuel entries (some (key, seq)) d l (entry, p) e again =
    elim (Bool-cases (leb max_nonce_store_entries (length entries))) [
      | inl b ↦
          rw (b, e)
            (again (remove key entries) (remove-Distinct key entries d)
              (omega (arith, l, length-remove key entry entries d p)))
      | inr b ↦ rw b (d, ground (arith, b))
    ]

make_room-length :
    (fuel : ℕ) (entries : Assoc Text NonceEntry)
    → Distinct entries
    → length entries ≤ fuel
    → Distinct (make_room fuel entries)
      × (length (make_room fuel entries) < max_nonce_store_entries)
unfolding make_room
make_room-length zero entries d l = (d, omega (arith, l))
make_room-length (suc fuel) entries d l =
    make_room_turn fuel entries (oldest entries) d l (oldest-Present entries) refl
      (make_room-length fuel)

pub record NoncesOk (store : MemoryNonceStore) : Type 0 where
  pub distinct : Distinct store.entries
  pub bound : length store.entries ≤ max_nonce_store_entries

reserve-NoncesOk :
    (nonce : Text) (store : MemoryNonceStore) → NoncesOk store → NoncesOk (reserve nonce store).1
unfolding reserve insert
reserve-NoncesOk nonce store good =
    let (distinct, room) =
      make_room-length (length store.entries) store.entries good.distinct (omega arith) in
    elim (Bool-cases (contains_key nonce store.entries)) [
      | inl b ↦ rw b good
      | inr b ↦ rw b (record {
        distinct =
            insert-Distinct nonce (record { state = reserved; seq = store.next_seq }) _ distinct;
        bound =
            omega (
              arith,
              room,
              length-remove-le nonce (make_room (length store.entries) store.entries),
            );
      })
    ]

inserted-length :
    (nonce : Text) (old entry : NonceEntry) (entries : Assoc Text NonceEntry)
    → Distinct entries
    → lookup nonce entries ≡ some old
    → length (insert nonce entry entries) ≡ length entries
unfolding insert
inserted-length nonce old entry entries d h = omega (arith, length-remove nonce old entries d h)

commit_known :
    (nonce : Text) (store : MemoryNonceStore) (state : NonceState) (seq : ℕ)
    → NoncesOk store
    → lookup nonce store.entries ≡ some (record { state = state; seq = seq })
    → NoncesOk (commit nonce store).1
unfolding commit commit_entry
commit_known nonce store reserved seq good e =
    let entry : NonceEntry = record { state = committed; seq = seq } in
    rw e (record {
      distinct = insert-Distinct nonce entry _ good.distinct;
      bound =
          omega (arith, good.bound, inserted-length nonce _ entry store.entries good.distinct e);
    })
commit_known nonce store committed seq good e = rw e good

commit-NoncesOk :
    (nonce : Text) (store : MemoryNonceStore) → NoncesOk store → NoncesOk (commit nonce store).1
unfolding commit commit_entry
commit-NoncesOk nonce store good = elim (Option-cases (lookup nonce store.entries)) [
  | inl e ↦ rw e good
  | inr (entry, e) ↦ commit_known nonce store entry.state entry.seq good e
]

release_known :
    (nonce : Text) (store : MemoryNonceStore) (state : NonceState) (seq : ℕ)
    → NoncesOk store
    → lookup nonce store.entries ≡ some (record { state = state; seq = seq })
    → NoncesOk (release nonce store)
unfolding release release_entry
release_known nonce store reserved seq good e = rw e (record {
  distinct = remove-Distinct nonce _ good.distinct;
  bound = omega (arith, good.bound, length-remove-le nonce store.entries);
})
release_known nonce store committed seq good e = rw e good

release-NoncesOk :
    (nonce : Text) (store : MemoryNonceStore) → NoncesOk store → NoncesOk (release nonce store)
unfolding release release_entry
release-NoncesOk nonce store good = elim (Option-cases (lookup nonce store.entries)) [
  | inl e ↦ rw e good
  | inr (entry, e) ↦ release_known nonce store entry.state entry.seq good e
]

pub data NonceUse : Type 0 where
  reserving : Text → NonceUse
  committing : Text → NonceUse
  releasing : Text → NonceUse

unfoldable pub after_nonces : List NonceUse → MemoryNonceStore → MemoryNonceStore
after_nonces [] store = store
after_nonces (reserving nonce ∷ uses) store = after_nonces uses (reserve nonce store).1
after_nonces (committing nonce ∷ uses) store = after_nonces uses (commit nonce store).1
after_nonces (releasing nonce ∷ uses) store = after_nonces uses (release nonce store)

-- If the store holds each nonce once and at most 100,000 of them, so it does after any sequence of
-- `reserve`, `commit` and `release`.
pub nonce_store_bound :
    (uses : List NonceUse) (store : MemoryNonceStore)
    → NoncesOk store
    → NoncesOk (after_nonces uses store)
unfolding after_nonces
nonce_store_bound [] store good = good
nonce_store_bound (reserving nonce ∷ uses) store good =
    nonce_store_bound uses _ (reserve-NoncesOk nonce store good)
nonce_store_bound (committing nonce ∷ uses) store good =
    nonce_store_bound uses _ (commit-NoncesOk nonce store good)
nonce_store_bound (releasing nonce ∷ uses) store good =
    nonce_store_bound uses _ (release-NoncesOk nonce store good)

reserved_entry :
    (nonce : Text) (store : MemoryNonceStore)
    → (reserve nonce store).0 ≡ true
    → lookup nonce (reserve nonce store).1.entries
      ≡ some (record { state = reserved; seq = store.next_seq })
unfolding reserve
reserved_entry nonce store h = ground (
  arith,
  lookup_self nonce (record { state = reserved; seq = store.next_seq })
      (make_room (length store.entries) store.entries),
)

committed_entry :
    (nonce : Text) (store : MemoryNonceStore) (seq : ℕ)
    → lookup nonce store.entries ≡ some (record { state = reserved; seq = seq })
    → ((commit nonce store).0 ≡ true)
      × (lookup nonce (commit nonce store).1.entries
          ≡ some (record { state = committed; seq = seq }))
unfolding commit commit_entry
committed_entry nonce store seq h = rw h (refl, lookup_self nonce _ store.entries)

committed_stays :
    (nonce : Text) (store : MemoryNonceStore) (seq : ℕ)
    → lookup nonce store.entries ≡ some (record { state = committed; seq = seq })
    → (reserve nonce store ≡ (false, store))
      × (commit nonce store ≡ (false, store))
      × (release nonce store ≡ store)
unfolding reserve commit commit_entry release release_entry contains_key
committed_stays nonce store seq h = (rw h refl, rw h refl, rw h refl)

-- If `reserve` accepts a nonce, then `commit` accepts it next; and in the store after that `reserve`
-- and `commit` refuse it, and these two and `release` leave the store as it is.
pub nonce_committed_once :
    (nonce : Text) (store : MemoryNonceStore)
    → (reserve nonce store).0 ≡ true
    → ((commit nonce (reserve nonce store).1).0 ≡ true)
      × (reserve nonce (commit nonce (reserve nonce store).1).1
          ≡ (false, (commit nonce (reserve nonce store).1).1))
      × (commit nonce (commit nonce (reserve nonce store).1).1
          ≡ (false, (commit nonce (reserve nonce store).1).1))
      × (release nonce (commit nonce (reserve nonce store).1).1
          ≡ (commit nonce (reserve nonce store).1).1)
nonce_committed_once nonce store h =
    let next =
      committed_entry nonce (reserve nonce store).1 store.next_seq (reserved_entry nonce store h) in
    let (again, twice, kept) =
      committed_stays nonce (commit nonce (reserve nonce store).1).1 store.next_seq next.1 in
    (next.0, again, twice, kept)
