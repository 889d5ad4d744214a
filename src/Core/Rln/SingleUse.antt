-- ===== src/Core/Rln/SingleUse.antt =====
-- Repeated uses of a quota token of core/rln.rs.
use lqxp.Common.{
  ℕ, ◌+◌, ◌*◌, ◌≤◌, ◌<◌, ◌≡◌, ◌≢◌, false, some, List, [], ◌∷◌, map, arith, eq_law, lookup, Text,
  too_many_requests, ok, text_Eq,
}
use mathlib.Core.Path.{subst}
use lqxp.Core.Once.{Consumed, consume_live, consume-keeps, consume-takes}
use lqxp.Core.Rln.{
  EpochQuotaToken, epoch_window_ms, nullifier_ttl_ms, epoch_at, outside_window, compute_nullifier,
  verify_and_consume_nullifier,
}

-- A call of `verify_and_consume_nullifier`, with the two readings of the clock.
pub record Call : Type 0 where
  pub token : EpochQuotaToken
  pub nullifier : Text
  pub action : Text
  pub now : ℕ
  pub later : ℕ

module _ (hmac sha256 : Text → Text) where
  abbrev pub step : Call → Consumed → Consumed
  step c map =
      (verify_and_consume_nullifier hmac sha256 c.token c.nullifier c.action c.now c.later map).1

  pub run : List Call → Consumed → Consumed
  run [] map = map
  run (c ∷ calls) map = run calls (step c map)

  step-keeps :
      (key : Text) (e : ℕ) (c : Call) (map : Consumed)
      → lookup key map ≡ some e
      → c.now < e
      → lookup key (step c map) ≡ some e
  unfolding verify_and_consume_nullifier
  step-keeps key e c map h l = ground (
    arith,
    consume-keeps key c.nullifier c.now e (c.now + nullifier_ttl_ms)
        (too_many_requests "Rate limit quota exceeded for this epoch. Please wait.") map,
  )

  abbrev pub Before : ℕ → List Call → Type 0
  Before t [] = Unit
  Before t (c ∷ calls) = (c.now ≤ t) × Before t calls

  run-keeps :
      (key : Text) (e t : ℕ) (calls : List Call) (map : Consumed)
      → lookup key map ≡ some e
      → t < e
      → Before t calls
      → lookup key (run calls map) ≡ some e
  unfolding run
  run-keeps key e t [] map h l b = h
  run-keeps key e t (c ∷ calls) map h l (b, bs) =
      run-keeps key e t calls (step c map) (step-keeps key e c map h (omega arith)) l bs

  accepted-parts :
      (c : Call) (map : Consumed)
      → (verify_and_consume_nullifier hmac sha256 c.token c.nullifier c.action c.now c.later map).0
        ≡ ok tt
      → (outside_window c.token (epoch_at c.later) ≡ false)
        × (c.nullifier ≡ compute_nullifier hmac sha256 c.token.ticket c.token.epoch c.action)
        × (lookup c.nullifier (step c map) ≡ some (c.now + nullifier_ttl_ms))
  unfolding verify_and_consume_nullifier
  accepted-parts c map h = (
    ground arith,
    ground (
      arith,
      eq_law c.nullifier (compute_nullifier hmac sha256 c.token.ticket c.token.epoch c.action),
    ),
    ground (
      arith,
      consume-takes c.nullifier c.now (c.now + nullifier_ttl_ms)
          (too_many_requests "Rate limit quota exceeded for this epoch. Please wait.") map,
    ),
  )

  -- A consumed nullifier is refused until it expires.
  live-refused :
      (c : Call) (e : ℕ) (map : Consumed)
      → lookup c.nullifier map ≡ some e
      → c.now < e
      → (verify_and_consume_nullifier hmac sha256 c.token c.nullifier c.action c.now c.later map).0
        ≢ ok tt
  unfolding verify_and_consume_nullifier
  live-refused c e map h l = λ accepted. ground (
    arith,
    consume_live c.nullifier c.now e (c.now + nullifier_ttl_ms)
        (too_many_requests "Rate limit quota exceeded for this epoch. Please wait.") map,
  )

  -- A token that is inside its window at two times outlives the first by less than six epochs.
  window-lt :
      (token : EpochQuotaToken) (s t : ℕ)
      → outside_window token (epoch_at s) ≡ false
      → outside_window token (epoch_at t) ≡ false
      → t < s + 6 * epoch_window_ms
  window-lt token s t h k = ground arith

  -- Once a call with a token and an action is accepted, no later call with that token and that
  -- action is, whatever nullifier it presents and whatever calls come in between: the token leaves
  -- its window before its nullifier expires. The clock does not run backwards, and the first call's
  -- two readings of it lie at most 90 seconds apart.
  pub quota_token_single_use :
      (c c' : Call) (calls : List Call) (map : Consumed)
      → c'.token ≡ c.token
      → c'.action ≡ c.action
      → c.later ≤ c.now + 90000
      → c'.now ≤ c'.later
      → Before c'.now calls
      → (verify_and_consume_nullifier hmac sha256 c.token c.nullifier c.action c.now c.later map).0
        ≡ ok tt
      → (verify_and_consume_nullifier hmac sha256 c'.token c'.nullifier c'.action c'.now c'.later
          (run calls (step c map))).0
        ≢ ok tt
  quota_token_single_use c c' calls map same_token same_action prompt clock before accepted =
      λ again.
        let first = accepted-parts c map accepted in
        let second = accepted-parts c' (run calls (step c map)) again in
        let inside : outside_window c.token (epoch_at c'.later) ≡ false =
          subst (λ t. outside_window t (epoch_at c'.later) ≡ false) same_token second.0 in
        let soon : c'.now < c.now + nullifier_ttl_ms =
          omega (arith, window-lt c.token c.later c'.later first.0 inside) in
        let same : c.nullifier ≡ c'.nullifier = cc (first.1, second.1) in
        let kept : lookup c'.nullifier (run calls (step c map)) ≡ some (c.now + nullifier_ttl_ms) =
          run-keeps c'.nullifier (c.now + nullifier_ttl_ms) c'.now calls (step c map)
            (subst (λ k. lookup k (step c map) ≡ some (c.now + nullifier_ttl_ms)) same first.2) soon
            before in
        live-refused c' (c.now + nullifier_ttl_ms) (run calls (step c map)) kept soon again
