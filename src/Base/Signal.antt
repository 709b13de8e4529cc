-- ===== src/Base/Signal.antt =====
-- Unsigned hardware signals as native numbers, and the state of a synchronous circuit after a
-- history of clock cycles.
use Prim.Native.Nat.{ℕ, zero, suc, ◌+◌, ◌-◌, ◌*◌, ◌%◌, ◌^◌, ◌≤◌, ◌<◌}
use mathlib.Core.Path.{◌≡◌, ap, ◌∙◌}
use mathlib.Core.List.{List, [], ◌∷◌}
use native.Mathlib.Nat.{mod-eq_of_lt, one-le-pow, pow-suc}
use native.Mathlib.Decide.{dec_lt}
use native.Mathlib.Omega.{arith}

-- The state after the inputs of a history, the most recent cycle first.
abbrev pub after {ℓ κ} : {I : Type ℓ} {S : Type κ} → (I → S → S) → S → List I → S
after step s [] = s
after step s (i ∷ h) = step i (after step s h)

-- `x.eq(x - 1)` on a signal with `m` values.
abbrev pub pred_mod : ℕ → ℕ → ℕ
pred_mod m c = (c + m - 1) % m

pub two_pow-pos : (w : ℕ) → 0 < 2 ^ w
two_pow-pos w = one-le-pow w 2 (omega arith)

pub two_pow-add : (a b : ℕ) → 2 ^ (a + b) ≡ 2 ^ a * 2 ^ b
two_pow-add zero b = let e : 0 + b ≡ b = omega arith in ap (λ (n : ℕ). 2 ^ n) e ∙ omega arith
two_pow-add (suc a) b =
    let e : suc a + b ≡ suc (a + b) = omega arith in
    ap (λ (n : ℕ). 2 ^ n) e
    ∙ pow-suc 2 (a + b)
    ∙ ap (λ (n : ℕ). n * 2) (two_pow-add a b)
    ∙ omega (arith, ap (λ (n : ℕ). n * 2 ^ b) (pow-suc 2 a))

pub two-le-two_pow : (w : ℕ) → 1 ≤ w → 2 ≤ 2 ^ w
two-le-two_pow zero h = absurd (omega arith)
two-le-two_pow (suc w) h = omega (arith, pow-suc 2 w, two_pow-pos w)

pub pred_mod_of_pos : (m c : ℕ) → 0 < c → c ≤ m → pred_mod m c ≡ c - 1
pred_mod_of_pos m c h k = grind arith

pub pred_mod_zero : (m : ℕ) → 0 < m → pred_mod m 0 ≡ m - 1
pred_mod_zero m h = omega (arith, mod-eq_of_lt {n = 0 + m - 1} {m = m} (omega arith))

pub pred_mod-lt : (m c : ℕ) → 0 < m → pred_mod m c < m
pred_mod-lt m c h = omega arith

pub two_pow-lt : (a b : ℕ) → a < b → 2 ^ a < 2 ^ b
two_pow-lt a zero l = elim l [ ]
two_pow-lt a (suc b) l = elim (dec_lt a b) [
  | yes p ↦ omega (arith, two_pow-lt a b p, pow-suc 2 b)
  | no q ↦
      let e : a ≡ b = omega arith in
      omega (arith, two_pow-pos b, pow-suc 2 b, ap (λ (n : ℕ). 2 ^ n) e)
]

pub two_pow-inj : (a b : ℕ) → 2 ^ a ≡ 2 ^ b → a ≡ b
two_pow-inj a b e = elim (dec_lt a b) [
  | yes p ↦ omega (arith, two_pow-lt a b p, e)
  | no q ↦ elim (dec_lt b a) [ yes p ↦ omega (arith, two_pow-lt b a p, e) | no r ↦ omega arith ]
]

pub lt-two_pow : (k : ℕ) → k < 2 ^ k
lt-two_pow zero = omega arith
lt-two_pow (suc k) = omega (arith, lt-two_pow k, pow-suc 2 k)
