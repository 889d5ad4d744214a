-- ===== src/Core/RateLimit/Window.antt =====
-- The quota of one window.

use lqxp.Common.{
  ℕ, suc, ◌+◌, ◌-◌, ◌^◌, ◌≤◌, ◌<◌, ◌≡◌, ◌≢◌, inl, inr, ◌&&◌, not, some, List, [], ◌∷◌, arith, ltb,
  if◌then◌else◌, Bool-cases, ◌==◌, eq_law, length, lookup, lookup-insert, lookup-retain, Text,
  text_Eq,
}
use lqxp.Core.RateLimit.{Buckets, is_open, purge, touch, rate_limit_hit}

-- `key` has made `used` calls in the window that began at `start`.
abbrev pub Counted : Text → ℕ → ℕ → ℕ → Buckets → Type 0
Counted key start window used buckets =
    lookup key buckets ≡ some (record { window_start_ms = start; window_ms = window; count = used })

purge-Counted :
    (key : Text) (start window used now : ℕ) (buckets : Buckets)
    → now ≤ start + window
    → Counted key start window used buckets
    → Counted key start window used (purge now buckets)
unfolding purge
purge-Counted key start window used now buckets h c = ground (
  arith,
  lookup-retain (λ _ bucket. is_open now bucket) key
      (record { window_start_ms = start; window_ms = window; count = used }) buckets,
)

hit-Counted :
    (key : Text) (limit start window used now : ℕ) (buckets : Buckets)
    → now ≤ start + window
    → Counted key start window used buckets
    → used + 1 < 2 ^ 32
    → ((rate_limit_hit key limit window now buckets).0 ≡ ltb limit (used + 1))
      × Counted key start window (used + 1) (rate_limit_hit key limit window now buckets).1
unfolding rate_limit_hit touch
hit-Counted key limit start window used now buckets h c b =
    let kept = purge-Counted key start window used now buckets h c in
    (ground (arith, kept), rw lookup-insert (ground (arith, kept, eq_law key key)))

other-Counted :
    (key other : Text) (limit start window used w now : ℕ) (buckets : Buckets)
    → now ≤ start + window
    → other ≢ key
    → Counted key start window used buckets
    → Counted key start window used (rate_limit_hit other limit w now buckets).1
unfolding rate_limit_hit
other-Counted key other limit start window used w now buckets h d c =
    rw lookup-insert
      (ground (arith, purge-Counted key start window used now buckets h c, eq_law other key))

-- A call of the limiter: its key, limit, window and time.
pub record Call : Type 0 where
  pub key : Text
  pub limit : ℕ
  pub window_ms : ℕ
  pub now : ℕ

-- The calls for `key` that a sequence of calls lets through.
pub admitted : Text → List Call → Buckets → ℕ
admitted key [] buckets = 0
admitted key (c ∷ calls) buckets =
    let (over, next) = rate_limit_hit c.key c.limit c.window_ms c.now buckets in
    let rest = admitted key calls next in if (c.key == key) && not over then suc rest else rest

-- Every call falls in the window, and those for `key` have one limit and one window length.
abbrev pub Within : Text → ℕ → ℕ → ℕ → List Call → Type 0
Within key limit start window [] = Unit
Within key limit start window (c ∷ calls) =
    (c.now ≤ start + window)
    × (c.key ≡ key → (c.limit ≡ limit) × (c.window_ms ≡ window))
    × Within key limit start window calls

admitted_own :
    (key : Text) (limit start window used : ℕ) (c : Call) (calls : List Call) (buckets : Buckets)
    → used + suc (length calls) < 2 ^ 32
    → c.now ≤ start + window
    → c.key ≡ key
    → c.limit ≡ limit
    → c.window_ms ≡ window
    → Counted key start window used buckets
    → admitted key calls (rate_limit_hit c.key c.limit c.window_ms c.now buckets).1
      ≤ limit - (used + 1)
    → admitted key (c ∷ calls) buckets ≤ limit - used
unfolding admitted
admitted_own key limit start window used c calls buckets b n k l w h ih =
    ground (arith, eq_law c.key key, hit-Counted key limit start window used c.now buckets n h)

-- If `key` has a bucket with `used` calls in a window, every later call of a sequence comes before
-- that window ends, and those for `key` have one limit and the bucket's window length, then at most
-- `limit - used` of the calls for `key` are let through, whatever other keys are used in between.
-- The counter of calls stays below 2^32.
pub admitted-le-limit :
    (key : Text) (limit start window used : ℕ) (calls : List Call) (buckets : Buckets)
    → used + length calls < 2 ^ 32
    → Within key limit start window calls
    → Counted key start window used buckets
    → admitted key calls buckets ≤ limit - used
unfolding admitted
admitted-le-limit key limit start window used [] buckets b w h = omega arith
admitted-le-limit key limit start window used (c ∷ calls) buckets b (n, same, w) h =
    elim (Bool-cases (c.key == key)) [
      | inl own ↦
          let k : c.key ≡ key = (eq_law c.key key).0 own in
          admitted_own key limit start window used c calls buckets b n k (same k).0 (same k).1 h (
            admitted-le-limit key limit start window (used + 1) calls _ (omega arith) w (
              ground (arith, same k, k, hit-Counted key limit start window used c.now buckets n h)))
      | inr foreign ↦ rw foreign (
          admitted-le-limit key limit start window used calls _ (omega arith) w (
            other-Counted key c.key c.limit start window used c.window_ms c.now buckets n
              (λ k. ground (arith, eq_law c.key key)) h))
    ]
