-- ===== src/Base/Bits.antt =====
-- The bits of a number, and `&` and `|` by bits, at every width.
use Prim.Native.Nat.{
  ℕ, zero, suc, ◌+◌, ◌-◌, ◌*◌, ◌/◌, ◌%◌, ◌^◌, ◌≤◌, ◌<◌, min, max, bit_and, bit_or, bit_and-bitwise,
  bit_or-bitwise, bitwise, digits,
}
use native.Mathlib.Nat.{pow-suc, le_refl, one-le-pow}
use mathlib.Core.Path.{◌≡◌, refl, ap, ap₂, ◌∙◌}
use native.Mathlib.Omega.{arith}

-- Bit `k` of `n`, as 0 or 1.
abbrev pub bit : ℕ → ℕ → ℕ
bit n zero = n % 2
bit n (suc k) = bit (n / 2) k

-- The fuel of the digit recursion does not matter once it is enough.
module _ (z : ℕ → ℕ) (f : ℕ → ℕ → ℕ) where
  digits_enough : (n m a b : ℕ) → a ≤ n → a ≤ m → digits z f n a b ≡ digits z f m a b
  digits_enough zero zero a b p q = refl
  digits_enough zero (suc m) zero b p q = refl
  digits_enough zero (suc m) (suc a) b p q = absurd (omega arith)
  digits_enough (suc n) zero zero b p q = refl
  digits_enough (suc n) zero (suc a) b p q = absurd (omega arith)
  digits_enough (suc n) (suc m) zero b p q = refl
  digits_enough (suc n) (suc m) (suc a) b p q =
      rw (digits_enough n m (suc a / 2) (b / 2) (omega arith) (omega arith))

  bitwise_low :
      (a b : ℕ)
      → bitwise z f (suc a) b ≡ bitwise z f (suc a / 2) (b / 2) * 2 + f (suc a % 2) (b % 2)
  bitwise_low a b =
      omega (arith, digits_enough a (suc a / 2) (suc a / 2) (b / 2) (omega arith) (le_refl _))

pub or_low : (a b : ℕ) → bit_or a b ≡ bit_or (a / 2) (b / 2) * 2 + max (a % 2) (b % 2)
or_low zero b = simp bit_or-bitwise (omega arith)
or_low (suc a) b = simp bit_or-bitwise (bitwise_low (λ y. y) max a b)

pub and_low : (a b : ℕ) → bit_and a b ≡ bit_and (a / 2) (b / 2) * 2 + min (a % 2) (b % 2)
and_low zero b = simp bit_and-bitwise (omega arith)
and_low (suc a) b = simp bit_and-bitwise (bitwise_low (λ y. 0) min a b)

-- Bit by bit, `|` is the greater and `&` the lesser of the two.
pub bit-or : (a b k : ℕ) → bit (bit_or a b) k ≡ max (bit a k) (bit b k)
bit-or a b zero = omega (arith, or_low a b)
bit-or a b (suc k) =
    ap (λ n. bit n k)
      (let e : bit_or a b / 2 ≡ bit_or (a / 2) (b / 2) = omega (arith, or_low a b) in e)
    ∙ bit-or (a / 2) (b / 2) k

pub bit-and : (a b k : ℕ) → bit (bit_and a b) k ≡ min (bit a k) (bit b k)
bit-and a b zero = omega (arith, and_low a b)
bit-and a b (suc k) =
    ap (λ n. bit n k)
      (let e : bit_and a b / 2 ≡ bit_and (a / 2) (b / 2) = omega (arith, and_low a b) in e)
    ∙ bit-and (a / 2) (b / 2) k

pub bit-lt : (n k : ℕ) → bit n k < 2
bit-lt n zero = omega arith
bit-lt n (suc k) = bit-lt (n / 2) k

pub bit_of_zero : (k : ℕ) → bit 0 k ≡ 0
bit_of_zero zero = refl
bit_of_zero (suc k) = bit_of_zero k

-- A number below `2 ^ w` has no bit from `w` on.
pub bit_above : (n w k : ℕ) → n < 2 ^ w → w ≤ k → bit n k ≡ 0
bit_above n zero k h le = ap (λ m. bit m k) (let e : n ≡ 0 = omega arith in e) ∙ bit_of_zero k
bit_above n (suc w) zero h le = absurd (omega arith)
bit_above n (suc w) (suc k) h le = bit_above (n / 2) w k (omega (arith, pow-suc 2 w)) (omega arith)

double : (n s : ℕ) → n * 2 ^ suc s ≡ 2 * (n * 2 ^ s)
double n s = omega (arith, ap (λ (t : ℕ). n * t) (pow-suc 2 s))

halve : (n s : ℕ) → n * 2 ^ suc s / 2 ≡ n * 2 ^ s
halve n s = omega (arith, double n s)

-- A shift to the left moves the bits up.
pub bit-shift : (n s k : ℕ) → bit (n * 2 ^ s) (s + k) ≡ bit n k
bit-shift n zero k =
    ap₂ bit (let e : n * 1 ≡ n = omega arith in e) (let e : 0 + k ≡ k = omega arith in e)
bit-shift n (suc s) k =
    ap (λ j. bit (n * 2 ^ suc s) j) (let e : suc s + k ≡ suc (s + k) = omega arith in e)
    ∙ ap (λ m. bit m (s + k)) (halve n s)
    ∙ bit-shift n s k

pub bit-shift_below : (n s k : ℕ) → k < s → bit (n * 2 ^ s) k ≡ 0
bit-shift_below n zero k h = absurd (omega arith)
bit-shift_below n (suc s) zero h = omega (arith, double n s)
bit-shift_below n (suc s) (suc k) h =
    ap (λ m. bit m k) (halve n s) ∙ bit-shift_below n s k (omega arith)

-- The mask of `w` low bits.
pub bit-mask : (w k : ℕ) → k < w → bit (2 ^ w - 1) k ≡ 1
bit-mask zero k h = absurd (omega arith)
bit-mask (suc w) zero h = omega (arith, pow-suc 2 w, one-le-pow w 2 (omega arith))
bit-mask (suc w) (suc k) h =
    ap (λ m. bit m k)
      (let e : (2 ^ suc w - 1) / 2 ≡ 2 ^ w - 1 =
          omega (arith, pow-suc 2 w, one-le-pow w 2 (omega arith)) in
        e)
    ∙ bit-mask w k (omega arith)
