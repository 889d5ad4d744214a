-- ===== src/Phantom/PrivacyPass.antt =====
-- services/privacy_pass.rs: the nonce store, the deposit tokens and the redemption. The keyed hash
-- (HMAC-SHA256, in hex) is a parameter.
pub mod Nonces
pub mod Redeem
use lqxp.Common.{
  ℕ, zero, suc, ◌+◌, ◌-◌, ◌*◌, ◌/◌, ◌%◌, ◌^◌, Bool, true, false, ◌&&◌, ◌||◌, not, Option, none,
  some, [], ◌∷◌, ◌++◌, map, ltb, leb, nat_beq, if◌then◌else◌, length, is_empty, all, Assoc, is_some,
  retain, lookup, remove, insert, contains_key, Text, is_ascii_hexdigit, decimal, parse_u64,
  ApiResult, bad_request, ok_or, Exec, lift, modify, reject_if, ok, err, panicked, ◌>>=◌, ◌>>◌,
  text_Eq,
}
use lqxp.Core.ConstantTime.{constant_time_eq}
use lqxp.Core.Token.{Tokens, token_parts, token_text, take_token}

pub data NonceState : Type 0 where
  reserved : NonceState
  committed : NonceState

pub record NonceEntry : Type 0 where
  pub state : NonceState
  pub seq : ℕ

pub record MemoryNonceStore : Type 0 where
  pub entries : Assoc Text NonceEntry
  pub next_seq : ℕ

abbrev pub max_nonce_store_entries : ℕ
max_nonce_store_entries = 100000

-- `min_by_key(|(_, entry)| entry.seq)`: the first of the entries whose number is least.
older : Text → ℕ → Option (Text × ℕ) → Text × ℕ
older key seq none = (key, seq)
older key seq (some (other, at)) = if ltb at seq then (other, at) else (key, seq)

unfoldable pub oldest : Assoc Text NonceEntry → Option (Text × ℕ)
unfolding older
oldest [] = none
oldest ((key, entry) ∷ entries) = some (older key entry.seq (oldest entries))

remove_oldest : Option (Text × ℕ) → Assoc Text NonceEntry → Assoc Text NonceEntry
remove_oldest none entries = entries
remove_oldest (some (key, seq)) entries = remove key entries

-- The loop of `reserve`: a turn removes an entry, so their number is fuel enough.
unfoldable pub make_room : ℕ → Assoc Text NonceEntry → Assoc Text NonceEntry
unfolding oldest remove_oldest
make_room zero entries = entries
make_room (suc fuel) entries =
    let rest = make_room fuel (remove_oldest (oldest entries) entries) in
    if leb max_nonce_store_entries (length entries) && is_some (oldest entries)
    then rest
    else entries

unfoldable pub reserve : Text → MemoryNonceStore → Bool × MemoryNonceStore
unfolding make_room
reserve nonce store = if contains_key nonce store.entries then (false, store) else (
  true,
  record {
    entries =
        insert nonce (record { state = reserved; seq = store.next_seq })
          (make_room (length store.entries) store.entries);
    next_seq = (store.next_seq + 1) % 2 ^ 64;
  },
)

commit_entry : Text → Option NonceEntry → MemoryNonceStore → Bool × MemoryNonceStore
commit_entry nonce none store = (false, store)
commit_entry nonce (some entry) store = elim entry.state [
  | reserved ↦ (
    true,
    record store { entries = insert nonce (record entry { state = committed }) store.entries },
  )
  | committed ↦ (false, store)
]

unfoldable pub commit : Text → MemoryNonceStore → Bool × MemoryNonceStore
unfolding commit_entry
commit nonce store = commit_entry nonce (lookup nonce store.entries) store

release_entry : Text → Option NonceEntry → MemoryNonceStore → MemoryNonceStore
release_entry nonce none store = store
release_entry nonce (some entry) store = elim entry.state [
  | reserved ↦ record store { entries = remove nonce store.entries }
  | committed ↦ store
]

unfoldable pub release : Text → MemoryNonceStore → MemoryNonceStore
unfolding release_entry
release nonce store = release_entry nonce (lookup nonce store.entries) store

abbrev pub pass_deposit_token_ttl_ms : ℕ
pass_deposit_token_ttl_ms = 300000

module _ (hmac : Text → Text) where
  -- `sign_data(&format!("{token_id}:{expires_at}"))`
  abbrev pub pass_signature : Text → ℕ → Text
  pass_signature token_id expires_at = hmac (token_id ++ b':' ∷ decimal expires_at)

  -- The token's id is 16 random bytes in hex.
  unfoldable pub issue_deposit_token : Text → ℕ → Exec Tokens Text
  issue_deposit_token token_id now map =
      let expires_at = now + pass_deposit_token_ttl_ms in
      let token = token_text "pass" token_id expires_at (pass_signature token_id expires_at) in
      (ok token, insert token expires_at map)

  unfoldable pub consume_deposit_token : Text → ℕ → Exec Tokens (Unit {0})
  consume_deposit_token token now = do
    (token_id, expires_text, signature) ←
        lift (ok_or (token_parts "pass" token) (bad_request "Invalid deposit token format."))
    expires_at ←
        lift (ok_or (parse_u64 expires_text) (bad_request "Invalid deposit token timestamp."))
    reject_if (ltb expires_at now) (bad_request "Deposit token expired.")
    reject_if (not (constant_time_eq (pass_signature token_id expires_at) signature))
        (bad_request "Invalid deposit token signature.")
    modify (retain (λ _ exp. ltb now exp))
    take_token token now (bad_request "Deposit token already consumed or invalid.")

abbrev pub max_token_response_len : ℕ
max_token_response_len = 64 * 1024

-- The stores that a redemption touches.
pub record PassStores : Type 0 where
  pub nonces : MemoryNonceStore
  pub tokens : Tokens

-- No response is verified yet.
verify_amortized_batch_response : Text → ApiResult (Unit {0})
verify_amortized_batch_response token_response =
    err (bad_request "Privacy Pass redemption is not yet available.")

take_nonce : Text → Exec PassStores Bool
unfolding reserve
take_nonce nonce s =
    let (taken, nonces) = reserve nonce s.nonces in (ok taken, record s { nonces = nonces })

-- A nonce whose response is refused is given back.
release_if_refused : Text → ApiResult (Unit {0}) → Exec PassStores (Unit {0})
unfolding release
release_if_refused nonce (ok _) s = (ok tt, s)
release_if_refused nonce (err e) s = (err e, record s { nonces = release nonce s.nonces })
release_if_refused nonce panicked s = (panicked, s)

module _ (hmac : Text → Text) where
  issue : Text → ℕ → Exec PassStores Text
  unfolding issue_deposit_token
  issue token_id now s =
      let (r, tokens) = issue_deposit_token hmac token_id now s.tokens in
      (r, record s { tokens = tokens })

  redeem_pass_token : Text → Text → Text → ℕ → Exec PassStores Text
  unfolding take_nonce release_if_refused verify_amortized_batch_response commit issue
  redeem_pass_token token_response nonce token_id now = do
    reject_if (not (nat_beq (length nonce) 32 && all is_ascii_hexdigit nonce))
        (bad_request "Malformed redemption nonce.")
    reject_if (is_empty token_response || ltb max_token_response_len (length token_response))
        (bad_request "Token response out of bounds.")
    taken ← take_nonce nonce
    reject_if (not taken) (bad_request "Redemption nonce already used.")
    release_if_refused nonce (verify_amortized_batch_response token_response)
    modify (λ s. record s { nonces = (commit nonce s.nonces).1 })
    issue token_id now
