-- ===== src/Common/Handler.antt =====
-- `ApiResult` of core/result.rs, and handlers that change a state: the state is kept on an error.
-- `panicked` is the end of a task that panics; the locks that it holds are released.
use Prim.Native.Nat.{ℕ}
use Prim.Native.String.{String}
use mathlib.Core.Bool.{Bool, true, false}
use mathlib.Core.Option.{Option, none, some}

pub record ApiError : Type 0 where
  pub status_code : ℕ
  pub message : String

pub data ApiResult (A : Type 0) : Type 0 where
  ok : A → ApiResult A
  err : ApiError → ApiResult A
  panicked : ApiResult A

abbrev pub bad_request : String → ApiError
bad_request m = record { status_code = 400; message = m }

abbrev pub unauthorized : String → ApiError
unauthorized m = record { status_code = 401; message = m }

abbrev pub forbidden : String → ApiError
forbidden m = record { status_code = 403; message = m }

abbrev pub too_many_requests : String → ApiError
too_many_requests m = record { status_code = 429; message = m }

-- The cause is logged, never sent.
abbrev pub internal : ApiError
internal = record {
  status_code = 500;
  message = "An internal error occurred. Please try again later.";
}

-- `fail_if c e`: `if c { return Err(e); }`.
abbrev pub fail_if : Bool → ApiError → ApiResult (Unit {0})
fail_if true e = err e
fail_if false e = ok tt

abbrev pub ok_or : {A : Type 0} → Option A → ApiError → ApiResult A
ok_or none e = err e
ok_or (some a) e = ok a

-- A handler over the state `S`.
abbrev pub Exec : Type 0 → Type 0 → Type 0
Exec S A = S → ApiResult A × S

abbrev pub after : {S A B : Type 0} → ApiResult A × S → (A → Exec S B) → ApiResult B × S
after (ok a, s) f = f a s
after (err e, s) f = (err e, s)
after (panicked, s) f = (panicked, s)

infixl 5 ◌>>=◌ ◌>>◌
abbrev pub ◌>>=◌ : {S A B : Type 0} → Exec S A → (A → Exec S B) → Exec S B
◌>>=◌ m f s = after (m s) f

abbrev pub ◌>>◌ : {S A B : Type 0} → Exec S A → Exec S B → Exec S B
◌>>◌ m k s = after (m s) (λ _. k)

abbrev pub pure : {S A : Type 0} → A → Exec S A
pure a s = (ok a, s)

abbrev pub raise : {S A : Type 0} → ApiError → Exec S A
raise e s = (err e, s)

abbrev pub lift : {S A : Type 0} → ApiResult A → Exec S A
lift r s = (r, s)

abbrev pub gets : {S A : Type 0} → (S → A) → Exec S A
gets f s = (ok (f s), s)

abbrev pub modify : {S : Type 0} → (S → S) → Exec S (Unit {0})
modify f s = (ok tt, f s)

-- `if c { return Err(e); }` in a handler.
abbrev pub reject_if : {S : Type 0} → Bool → ApiError → Exec S (Unit {0})
reject_if c e s = (fail_if c e, s)
