-- ===== src/Core/RateLimit.antt =====
-- core/security.rs, `rate_limit_hit`, and `RateLimitBucket` of core/presence.rs. The clock is an
-- argument; the map of buckets is the state.
pub mod Window
pub mod Purge
use lqxp.Common.{
  ℕ, ◌+◌, ◌-◌, ◌/◌, ◌^◌, Bool, Option, none, some, map, ltb, leb, if◌then◌else◌, length, Assoc,
  retain, lookup, insert, Text, text_Eq,
}
use Prim.Native.Nat.{min}

pub record RateLimitBucket : Type 0 where
  pub window_start_ms : ℕ
  pub window_ms : ℕ
  pub count : ℕ

abbrev pub Buckets : Type 0
Buckets = Assoc Text RateLimitBucket

-- `saturating_sub` is `-` on ℕ.
abbrev pub is_open : ℕ → RateLimitBucket → Bool
is_open now bucket = leb (now - bucket.window_start_ms) bucket.window_ms

purge : ℕ → Buckets → Buckets
purge now buckets =
    if ltb 5000 (length buckets) then retain (λ _ bucket. is_open now bucket) buckets else buckets

entry_or_insert : Option RateLimitBucket → ℕ → ℕ → RateLimitBucket
entry_or_insert none now window_ms = record {
  window_start_ms = now;
  window_ms = window_ms;
  count = 0;
}
entry_or_insert (some bucket) now window_ms = bucket

roll_window : ℕ → ℕ → RateLimitBucket → RateLimitBucket
roll_window now window_ms bucket =
    if ltb window_ms (now - bucket.window_start_ms)
    then record { window_start_ms = now; window_ms = window_ms; count = 0 }
    else bucket

-- `saturating_add` on `u32`.
abbrev saturating_inc : RateLimitBucket → RateLimitBucket
saturating_inc bucket = record bucket { count = min (bucket.count + 1) (2 ^ 32 - 1) }

pub touch : Option RateLimitBucket → ℕ → ℕ → RateLimitBucket
unfolding entry_or_insert roll_window
touch found now window_ms =
    saturating_inc (roll_window now window_ms (entry_or_insert found now window_ms))

unfoldable pub rate_limit_hit : Text → ℕ → ℕ → ℕ → Buckets → Bool × Buckets
unfolding purge touch
rate_limit_hit key limit window_ms now buckets =
    let kept = purge now buckets in
    let bucket = touch (lookup key kept) now window_ms in
    (ltb limit bucket.count, insert key bucket kept)
