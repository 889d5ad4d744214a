-- ===== src/Core/RateLimit/Purge.antt =====
-- The housekeeping of the bucket map, which runs when it holds more than 5,000 entries.
use lqxp.Common.{
  ℕ, ◌≡◌, ap, inl, inr, some, arith, ltb, Bool-cases, Option-cases, lookup, lookup-retain, Distinct,
  lookup-retain-none, lookup-retain_rejected, Text, text_Eq,
}
use lqxp.Core.RateLimit.{Buckets, RateLimitBucket, is_open, purge, touch, rate_limit_hit}

-- The bucket that a call at `now` starts from is the same with and without the housekeeping.
touch_purged :
    (key : Text) (window now : ℕ) (buckets : Buckets)
    → ((b : RateLimitBucket) → lookup key buckets ≡ some b → b.window_ms ≡ window)
    → Distinct buckets
    → touch (lookup key (purge now buckets)) now window ≡ touch (lookup key buckets) now window
unfolding touch purge
touch_purged key window now buckets same d = elim (Option-cases (lookup key buckets)) [
  | inl e ↦ ground (arith, e, lookup-retain-none (λ _ bucket. is_open now bucket) key buckets)
  | inr (b, e) ↦ elim (Bool-cases (is_open now b)) [
    | inl open_ ↦ ground (arith, e, lookup-retain (λ _ bucket. is_open now bucket) key b buckets)
    | inr stale ↦
        ground
          (arith, e, same b, lookup-retain_rejected (λ _ bucket. is_open now bucket) key b buckets)
  ]
]

-- If the map holds every key once, and the key's bucket, where it has one, is of the call's window
-- length, then whether the call is over its limit is what the bucket says without the housekeeping.
pub hit_without_purge :
    (key : Text) (limit window now : ℕ) (buckets : Buckets)
    → ((b : RateLimitBucket) → lookup key buckets ≡ some b → b.window_ms ≡ window)
    → Distinct buckets
    → (rate_limit_hit key limit window now buckets).0
      ≡ ltb limit (touch (lookup key buckets) now window).count
unfolding rate_limit_hit
hit_without_purge key limit window now buckets same d =
    ap (λ (b : RateLimitBucket). ltb limit b.count) (touch_purged key window now buckets same d)
