-- ===== src/Links/Activity.antt =====
-- `exe_key`, `compact_detectable`, the cache of artwork and the cached list of core/activity.rs.
use lqxp.Common.{
  ℕ, zero, suc, ◌-◌, ◌*◌, Bool, true, false, ◌||◌, Option, none, some, List, [], ◌∷◌, ltb, leb,
  nat_beq, if◌then◌else◌, ◌==◌, length, is_empty, Assoc, unwrap_or, retain, lookup, remove, insert,
  contains_key, Text, text, text_Eq,
}
use lqxp.Common.Chars.{take_chars}
use lqxp.Common.Json.{Json, array, object, get_field, as_bool, as_array, str_field, trimmed_field}

abbrev pub detectable_ttl_ms : ℕ
detectable_ttl_ms = 2 * 3600 * 1000

abbrev pub max_entries : ℕ
max_entries = 200000

abbrev pub max_name_chars : ℕ
max_name_chars = 96

abbrev pub asset_ttl_ms : ℕ
asset_ttl_ms = 24 * 3600 * 1000

abbrev pub max_asset_entries : ℕ
max_asset_entries = 256

-- `rsplit(['/', '\\']).next()`: what follows the last separator.
base_name : Text → Text → Text
base_name current [] = current
base_name current (c ∷ s) =
    if nat_beq c b'/' || nat_beq c 92 then base_name s s else base_name current s

-- `strip_suffix`
without_suffix : Text → Text → Text
without_suffix suffix [] = []
without_suffix suffix (c ∷ s) =
    let rest = without_suffix suffix s in if (c ∷ s) == suffix then [] else c ∷ rest

unfoldable pub exe_key : (Text → Text) → Text → Text
unfolding base_name without_suffix text
exe_key to_lowercase raw = without_suffix (text ".exe") (to_lowercase (base_name raw raw))

-- The map so far, and whether it has grown to its bound.
abbrev Compact : Type 0
Compact = Assoc Text Text × Bool

add_key : Text → Text → Assoc Text Text → Compact
unfolding insert contains_key
add_key key display out =
    let grown = if contains_key key out then out else insert key display out in
    (grown, leb max_entries (length grown))

module _ (trim to_lowercase : Text → Text) where
  is_launcher : Json → Bool
  is_launcher exe = unwrap_or (as_bool (get_field exe "is_launcher")) false

  add_exes : Text → List Json → Assoc Text Text → Compact
  unfolding exe_key add_key is_launcher text
  add_exes display [] out = (out, false)
  add_exes display (exe ∷ exes) out =
      let key = exe_key to_lowercase (unwrap_or (str_field exe "name") []) in
      let (grown, full) = add_key key display out in
      let skipped = add_exes display exes out in
      let rest = add_exes display exes grown in
      if is_launcher exe
      then skipped
      else if is_empty key || (key == text "exe")
      then skipped
      else if full
      then (grown, true)
      else rest

  add_entries : List Json → Assoc Text Text → Assoc Text Text
  unfolding add_exes
  add_entries [] out = out
  add_entries (entry ∷ entries) out =
      let name = unwrap_or (trimmed_field trim entry "name") [] in
      let exes = unwrap_or (as_array (get_field entry "executables")) [] in
      let (grown, full) = add_exes (take_chars max_name_chars name) exes out in
      let skipped = add_entries entries out in
      let rest = add_entries entries grown in
      if is_empty name then skipped else if full then grown else rest

  entries_of : Json → List Json
  entries_of (array items) = unwrap_or (as_array (some (array items))) []
  entries_of (object fields) = unwrap_or (as_array (get_field (object fields) "detectable")) []
  entries_of _ = []

  unfoldable pub compact_detectable : Json → Assoc Text Text
  unfolding add_entries entries_of
  compact_detectable raw = add_entries (entries_of raw) []

pub record DetectableSnapshot : Type 0 where
  pub updated_at : ℕ
  pub payload : Text

-- `detectable_payload`: what is served, whether the list is fetched again, and the cache after it.
-- `fetched` is the payload of the fetch that is waited for where nothing is cached.
unfoldable pub detectable_payload :
    ℕ → Option Text → Text → Option DetectableSnapshot → Text × Bool × Option DetectableSnapshot
detectable_payload now fetched empty_payload (some snap) =
    if ltb (now - snap.updated_at) detectable_ttl_ms
    then (snap.payload, false, some snap)
    else (snap.payload, true, some snap)
detectable_payload now none empty_payload none = (empty_payload, true, none)
detectable_payload now (some payload) empty_payload none =
    (payload, true, some record { updated_at = now; payload = payload })

pub record AssetEntry : Type 0 where
  pub fetched_at : ℕ
  pub asset : Option (Text × Text)

-- The key of the entry fetched first, of those in the order of the map.
oldest_after : Text → ℕ → Assoc Text AssetEntry → Text
oldest_after key at [] = key
oldest_after key at ((k, e) ∷ entries) =
    let with_this = oldest_after k e.fetched_at entries in
    let with_old = oldest_after key at entries in
    if ltb e.fetched_at at then with_this else with_old

drop_oldest : Assoc Text AssetEntry → Assoc Text AssetEntry
unfolding oldest_after remove
drop_oldest [] = []
drop_oldest ((k, e) ∷ entries) = remove (oldest_after k e.fetched_at entries) ((k, e) ∷ entries)

-- The loop that makes room; `fuel` is the number of entries.
make_place : ℕ → Assoc Text AssetEntry → Assoc Text AssetEntry
unfolding drop_oldest
make_place zero entries = entries
make_place (suc fuel) entries =
    let rest = make_place fuel (drop_oldest entries) in
    if leb max_asset_entries (length entries) then rest else entries

-- The end of `fetch_activity_asset`: the result is cached.
unfoldable pub cache_asset :
    Text → Option (Text × Text) → ℕ → Assoc Text AssetEntry → Assoc Text AssetEntry
unfolding make_place retain insert
cache_asset key result now cache =
    let live = retain (λ k (e : AssetEntry). ltb (now - e.fetched_at) asset_ttl_ms) cache in
    insert key (record { fetched_at = now; asset = result }) (make_place (length live) live)

-- Its beginning: what is cached and still fresh.
unfoldable pub cached_asset : Text → ℕ → Assoc Text AssetEntry → Option (Option (Text × Text))
cached_asset key now cache = elim (lookup key cache) [
  | none ↦ none
  | some e ↦ if ltb (now - e.fetched_at) asset_ttl_ms then some e.asset else none
]
