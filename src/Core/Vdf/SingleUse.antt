-- ===== src/Core/Vdf/SingleUse.antt =====
-- Repeated uses of a challenge of core/vdf.rs before it expires.
use lqxp.Common.{
  ℕ, ◌≤◌, ◌<◌, ◌≡◌, sym, ◌≢◌, Option, none, some, List, [], ◌∷◌, map, arith, lookup, Text, ApiError,
  ApiResult, too_many_requests, ok, err, panicked, text_Eq,
}
use mathlib.Core.Path.{subst}
use lqxp.Core.Once.{Consumed, consume_live, consume-keeps, consume-takes}
use lqxp.Core.Vdf.{VdfDeps, VdfChallenge, VdfProof, and_consume, verify_vdf, verify_and_consume_vdf}

abbrev used_before : ApiError
used_before =
    too_many_requests "Security challenge has already been used. Please request a new one."

-- A call of `verify_and_consume_vdf`, with the two readings of the clock.
pub record Use : Type 0 where
  pub fuel : ℕ
  pub challenge : VdfChallenge
  pub proof : VdfProof
  pub target : Option Text
  pub checked : ℕ
  pub now : ℕ

abbrev pub use_of : VdfDeps → Use → Consumed → Option (ApiResult (Unit {0}) × Consumed)
use_of deps u map =
    verify_and_consume_vdf deps u.fuel u.challenge u.proof u.target u.checked u.now map

module _ (deps : VdfDeps) where
  recorded :
      (v : Option (ApiResult (Unit {0}))) (challenge : VdfChallenge) (now : ℕ) (map map' : Consumed)
      → and_consume deps v challenge now map ≡ some (ok tt, map')
      → lookup challenge.signature map' ≡ some challenge.expires_at
  unfolding and_consume
  recorded none challenge now map map' h = cc
  recorded (some (err e)) challenge now map map' h = ground (arith, h)
  recorded (some panicked) challenge now map map' h = ground (arith, h)
  recorded (some (ok _)) challenge now map map' h =
      ground (arith, h, consume-takes challenge.signature now challenge.expires_at used_before map)

  refused :
      (v : Option (ApiResult (Unit {0}))) (challenge : VdfChallenge) (now e : ℕ)
      (map map' : Consumed)
      → lookup challenge.signature map ≡ some e
      → now < e
      → and_consume deps v challenge now map ≢ some (ok tt, map')
  unfolding and_consume
  refused none challenge now d map map' h l = λ e. cc
  refused (some (err x)) challenge now d map map' h l = λ e. ground (arith, e)
  refused (some panicked) challenge now d map map' h l = λ e. ground (arith, e)
  refused (some (ok _)) challenge now d map map' h l = λ e.
      ground
        (arith, e, consume_live challenge.signature now d challenge.expires_at used_before map h l)

  -- A use whose search for a prime has not ended has not touched the map.
  pub step : Use → Consumed → Consumed
  step u map = elim (use_of deps u map) [ none ↦ map | some (_, after_) ↦ after_ ]

  pub run : List Use → Consumed → Consumed
  unfolding step
  run [] map = map
  run (u ∷ uses) map = run uses (step u map)

  abbrev pub Before : ℕ → List Use → Type 0
  Before t [] = Unit
  Before t (u ∷ uses) = (u.now ≤ t) × Before t uses

  and_consume-keeps :
      (v : Option (ApiResult (Unit {0}))) (challenge : VdfChallenge) (key : Text) (now e : ℕ)
      (map : Consumed)
      → lookup key map ≡ some e
      → now < e
      → lookup key
          (elim (and_consume deps v challenge now map) [ none ↦ map | some (_, after_) ↦ after_ ])
        ≡ some e
  unfolding and_consume
  and_consume-keeps none challenge key now e map h l = h
  and_consume-keeps (some (err x)) challenge key now e map h l = h
  and_consume-keeps (some panicked) challenge key now e map h l = h
  and_consume-keeps (some (ok _)) challenge key now e map h l =
      consume-keeps key challenge.signature now e challenge.expires_at used_before map h l

  run-keeps :
      (key : Text) (e t : ℕ) (uses : List Use) (map : Consumed)
      → lookup key map ≡ some e
      → t < e
      → Before t uses
      → lookup key (run uses map) ≡ some e
  unfolding run step verify_and_consume_vdf
  run-keeps key e t [] map h l b = h
  run-keeps key e t (u ∷ uses) map h l (b, bs) =
      run-keeps key e t uses (step u map)
        (and_consume-keeps (verify_vdf deps u.fuel u.challenge u.proof u.target u.checked)
          u.challenge key u.now e map h (omega arith))
        l bs

  -- After an accepted use of a challenge, no use of a challenge with the same signature is accepted
  -- before the first one expires, with any proof, and whatever uses of this or of other challenges
  -- come in between, none of them at a later time.
  pub challenge_used_once :
      (first again : Use) (uses : List Use) (map map' map'' : Consumed)
      → again.challenge.signature ≡ first.challenge.signature
      → again.now < first.challenge.expires_at
      → Before again.now uses
      → use_of deps first map ≡ some (ok tt, map')
      → use_of deps again (run uses map') ≢ some (ok tt, map'')
  unfolding verify_and_consume_vdf
  challenge_used_once first again uses map map' map'' same soon before accepted =
      refused _ again.challenge again.now first.challenge.expires_at (run uses map') map''
        (subst (λ key. lookup key (run uses map') ≡ some first.challenge.expires_at) (sym same)
          (run-keeps first.challenge.signature first.challenge.expires_at again.now uses map'
            (recorded _ first.challenge first.now map map' accepted) soon before))
        soon
