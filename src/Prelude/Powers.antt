-- ===== src/Prelude/Powers.antt =====
-- Powers of two of a sum.
use Prim.Native.Nat.{ℕ, zero, suc, ◌+◌, ◌*◌, ◌^◌}
use mathlib.Core.Path.{◌≡◌, sym, ap, ◌∙◌}
use native.Mathlib.Nat.{pow-succ'}
use native.Mathlib.Omega.{arith}

pub one_times : (n : ℕ) → 1 * n ≡ n
one_times n = omega arith

twice : (p q : ℕ) → 2 * (p * q) ≡ 2 * p * q
twice p q = grind arith

pub pow-sum : (a b : ℕ) → 2 ^ (a + b) ≡ 2 ^ a * 2 ^ b
pow-sum zero b = ground (arith, one_times (2 ^ b))
pow-sum (suc a) b =
    let e : suc a + b ≡ suc (a + b) = omega arith in
    ap (λ n. 2 ^ n) e
    ∙ pow-succ' 2 (a + b)
    ∙ ap (λ n. 2 * n) (pow-sum a b)
    ∙ twice (2 ^ a) (2 ^ b)
    ∙ ap (λ n. n * 2 ^ b) (sym (pow-succ' 2 a))
