-- ===== src/Phy/Wires.antt =====
-- Signals of several wires as lists of bits, the lowest bit first.
use mathlib.Core.Path.{ap}
use litedram.Base.{
  ℕ, zero, suc, ◌+◌, ◌*◌, ◌/◌, ◌%◌, ◌^◌, ◌<◌, ◌≡◌, ◌∙◌, arith, Bool, true, false, ◌&&◌, List, [],
  ◌∷◌, ◌==◌, two_pow-pos,
}
use native.Mathlib.Nat.{pow-suc, mod-lt, mod-eq_of_lt, add-mod_right, div-add-mod'}

-- `n[k]`.
abbrev pub bit_at : ℕ → ℕ → Bool
bit_at n zero = n % 2 == 1
bit_at n (suc k) = bit_at (n / 2) k

-- `n[:w]`.
abbrev pub wires : (w n : ℕ) → List Bool
wires zero n = []
wires (suc w) n = (n % 2 == 1) ∷ wires w (n / 2)

abbrev pub bit_value : Bool → ℕ
bit_value true = 1
bit_value false = 0

abbrev pub number : List Bool → ℕ
number [] = 0
number (b ∷ bs) = bit_value b + 2 * number bs

-- `bs == n`.
abbrev pub is : List Bool → ℕ → Bool
is [] n = n == 0
is (true ∷ bs) n = (n % 2 == 1) && is bs (n / 2)
is (false ∷ bs) n = (n % 2 == 0) && is bs (n / 2)

pub bit_value-lem : (n : ℕ) → bit_value (n % 2 == 1) ≡ n % 2
bit_value-lem n = ground arith

assoc : (q p : ℕ) → q * (p * 2) ≡ 2 * (q * p)
assoc q p = grind arith

rem_add : (q m r : ℕ) → r < m → (r + q * m) % m ≡ r
rem_add zero m r h = ap (λ (n : ℕ). n % m) (omega arith) ∙ mod-eq_of_lt h
rem_add (suc q) m r h =
    ap (λ (n : ℕ). n % m) (let e : r + suc q * m ≡ (r + q * m) + m = grind arith in e)
    ∙ add-mod_right (r + q * m) m
    ∙ rem_add q m r h

-- The lowest digit of a remainder, and the others.
mod_double : (n p : ℕ) → 0 < p → n % (p * 2) ≡ n % 2 + 2 * (n / 2 % p)
mod_double n p h =
    let q = n / 2 / p in
    let r = n % 2 + 2 * (n / 2 % p) in
    let e : n ≡ r + q * (p * 2) = omega (arith, div-add-mod' (n / 2) p, assoc q p) in
    ap (λ (m : ℕ). m % (p * 2)) e ∙ rem_add q (p * 2) r (omega (arith, mod-lt (n / 2) h))

pub number-wires : (w n : ℕ) → number (wires w n) ≡ n % 2 ^ w
number-wires zero n = omega arith
number-wires (suc w) n = omega (
  arith,
  number-wires w (n / 2),
  bit_value-lem n,
  ap (λ (m : ℕ). n % m) (pow-suc 2 w),
  mod_double n (2 ^ w) (two_pow-pos w),
)
