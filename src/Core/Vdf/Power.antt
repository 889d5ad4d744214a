-- ===== src/Core/Vdf/Power.antt =====
-- Powers and remainders.
use native.Mathlib.Nat.{
  pow-suc, pow-zero, div-add-mod, mul-add-mod_self_left, mul_assoc, mul_comm, mul-one, add-zero,
}
use lqxp.Common.{ℕ, zero, suc, ◌+◌, ◌*◌, ◌/◌, ◌%◌, ◌^◌, ◌≡◌, sym, ap, ◌∙◌, arith}

-- A factor may be reduced first.
pub mod-mul_left : (a b n : ℕ) → (a % n) * b % n ≡ a * b % n
mod-mul_left a b n =
    sym (mul-add-mod_self_left n ((a / n) * b) ((a % n) * b))
    ∙ ap (λ (t : ℕ). t % n) (omega (arith, ap (λ (t : ℕ). t * b) (div-add-mod a n)))

pub mod-mul : (a b n : ℕ) → (a % n) * (b % n) % n ≡ a * b % n
mod-mul a b n =
    mod-mul_left a (b % n) n
    ∙ ap (λ (t : ℕ). t % n) (mul_comm a (b % n))
    ∙ mod-mul_left b a n
    ∙ ap (λ (t : ℕ). t % n) (mul_comm b a)

pub pow-add : (x a b : ℕ) → x ^ (a + b) ≡ x ^ a * x ^ b
pow-add x a zero = rw (add-zero, pow-zero, mul-one)
pow-add x a (suc b) =
    ap (λ (t : ℕ). x ^ t) (omega arith)
    ∙ pow-suc x (a + b)
    ∙ ap (λ (t : ℕ). t * x) (pow-add x a b)
    ∙ mul_assoc (x ^ a) (x ^ b) x
    ∙ ap (λ (t : ℕ). x ^ a * t) (sym (pow-suc x b))

pub pow-mul : (x a b : ℕ) → x ^ (a * b) ≡ (x ^ a) ^ b
pow-mul x a zero = ap (λ (t : ℕ). x ^ t) (omega arith) ∙ pow-zero x ∙ sym (pow-zero (x ^ a))
pow-mul x a (suc b) =
    ap (λ (t : ℕ). x ^ t) (omega arith)
    ∙ pow-add x (a * b) a
    ∙ ap (λ (t : ℕ). t * x ^ a) (pow-mul x a b)
    ∙ sym (pow-suc (x ^ a) b)

-- A base may be reduced first.
pub mod-pow : (x k n : ℕ) → (x % n) ^ k % n ≡ x ^ k % n
mod-pow x zero n = ap (λ (t : ℕ). t % n) (pow-zero (x % n) ∙ sym (pow-zero x))
mod-pow x (suc k) n =
    ap (λ (t : ℕ). t % n) (pow-suc (x % n) k)
    ∙ sym (mod-mul_left ((x % n) ^ k) (x % n) n)
    ∙ ap (λ (t : ℕ). t * (x % n) % n) (mod-pow x k n)
    ∙ mod-mul (x ^ k) x n
    ∙ ap (λ (t : ℕ). t % n) (sym (pow-suc x k))

-- Wesolowski's identity: with `q` and `r` the quotient and the remainder of `e` by `l`, the proof
-- `x^q` and the output `x^e` meet the equation that the verifier checks.
pub wesolowski : (x e l n : ℕ) → ((x ^ (e / l) % n) ^ l % n) * (x ^ (e % l) % n) % n ≡ x ^ e % n
wesolowski x e l n =
    ap (λ (t : ℕ). t * (x ^ (e % l) % n) % n) (mod-pow (x ^ (e / l)) l n)
    ∙ mod-mul ((x ^ (e / l)) ^ l) (x ^ (e % l)) n
    ∙ ap (λ (t : ℕ). t * x ^ (e % l) % n) (sym (pow-mul x (e / l) l))
    ∙ ap (λ (t : ℕ). t % n) (sym (pow-add x (e / l * l) (e % l)))
    ∙ ap (λ (t : ℕ). x ^ t % n) (omega (arith, div-add-mod e l))
