-- ===== src/Core/Token.antt =====
-- The text form `prefix.id.expires.signature` that core/cap.rs and services/privacy_pass.rs give
-- their tokens, and the map of issued tokens that both keep: a token is taken out when it is used.
use lqxp.Common.{
  ℕ, ◌<◌, ◌≡◌, refl, true, Option, none, some, List, [], ◌∷◌, ◌++◌, map, arith, ltb, if◌then◌else◌,
  ◌==◌, eq_refl, all, Assoc, lookup, remove, lookup-remove, Text, text, split, not_sep, split_none,
  split-append, decimal, decimal-not_sep, ApiError, ApiResult, Exec, ok, err, text_Eq,
}
use Prim.Native.String.{String}

abbrev pub Tokens : Type 0
Tokens = Assoc Text ℕ

-- `split('.')`, and the test `parts.len() != 4 || parts[0] != prefix`.
four : String → List Text → Option (Text × Text × Text)
four prefix (p ∷ id ∷ expires ∷ signature ∷ []) =
    if p == text prefix then some (id, expires, signature) else none
four prefix parts = none

unfoldable pub token_parts : String → Text → Option (Text × Text × Text)
unfolding four
token_parts prefix token = four prefix (split b'.' token)

unfoldable pub token_text : String → Text → ℕ → Text → Text
token_text prefix id expires_at signature =
    text prefix ++ b'.' ∷ (id ++ b'.' ∷ (decimal expires_at ++ b'.' ∷ signature))

-- `match map.remove(token) { Some(exp) if exp > now => Ok(()), _ => Err(..) }`
taken : Option ℕ → ℕ → ApiError → ApiResult (Unit {0})
taken none now refused = err refused
taken (some expires) now refused = if ltb now expires then ok tt else err refused

unfoldable pub take_token : Text → ℕ → ApiError → Exec Tokens (Unit {0})
unfolding taken
take_token key now refused map = (taken (lookup key map) now refused, remove key map)

-- No separator in a part of a token.
abbrev pub NoDot : Text → Type 0
NoDot s = all (λ c. not_sep b'.' c) s ≡ true

-- The parts of a token are read back from its text.
pub token_parts-token_text :
    (prefix : String) (id : Text) (expires_at : ℕ) (signature : Text)
    → NoDot (text prefix)
    → NoDot id
    → NoDot signature
    → token_parts prefix (token_text prefix id expires_at signature)
      ≡ some (id, decimal expires_at, signature)
unfolding token_parts token_text
token_parts-token_text prefix id expires_at signature p i s =
    rw (split-append b'.' (text prefix) (id ++ b'.' ∷ (decimal expires_at ++ b'.' ∷ signature)) p) (
      rw (split-append b'.' id (decimal expires_at ++ b'.' ∷ signature) i) (
        rw (split-append b'.' (decimal expires_at) signature (decimal-not_sep b'.' expires_at refl))
          (rw (split_none b'.' signature s) (ground (arith, eq_refl (text prefix))))))

pub take_token-taken :
    (key : Text) (now : ℕ) (refused : ApiError) (map : Tokens)
    → lookup key (take_token key now refused map).1 ≡ none
unfolding take_token
take_token-taken key now refused map = ground (arith, lookup-remove key key map, eq_refl key)

pub take_token-missing :
    (key : Text) (now : ℕ) (refused : ApiError) (map : Tokens)
    → lookup key map ≡ none
    → take_token key now refused map ≡ (err refused, remove key map)
unfolding take_token
take_token-missing key now refused map h = rw h refl

pub take_token-none :
    (key other : Text) (now : ℕ) (refused : ApiError) (map : Tokens)
    → lookup key map ≡ none
    → lookup key (take_token other now refused map).1 ≡ none
unfolding take_token
take_token-none key other now refused map h = ground (arith, lookup-remove other key map)

pub take_token-live :
    (key : Text) (now expires : ℕ) (refused : ApiError) (map : Tokens)
    → lookup key map ≡ some expires
    → now < expires
    → (take_token key now refused map).0 ≡ ok tt
unfolding take_token
take_token-live key now expires refused map h l = rw h (ground (arith, l))
