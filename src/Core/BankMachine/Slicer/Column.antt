-- ===== src/Core/BankMachine/Slicer/Column.antt =====
-- The row and the column of an address.
use native.Mathlib.Nat.{mod-lt}
use litedram.Base.{
  ℕ, suc, ◌+◌, ◌-◌, ◌*◌, ◌/◌, ◌%◌, ◌^◌, ◌≤◌, ◌<◌, ◌≡◌, ap, ◌∙◌, arith, ltb, Bool-cases, inl, inr,
  two_pow-pos, two_pow-add,
}
use litedram.Core.BankMachine.Slicer.{Geometry, col_of}

-- A number of `n` bits moved up by `a` has `n + a` bits.
shift-lt : (x n a : ℕ) → x < 2 ^ n → x * 2 ^ a < 2 ^ (n + a)
shift-lt x n a h =
    let pos = two_pow-pos a in
    let step : suc x * 2 ^ a ≤ 2 ^ n * 2 ^ a = grind arith in
    omega (arith, two_pow-add n a, step, pos)

two_pow-le : (a b : ℕ) → a ≤ b → 2 ^ a ≤ 2 ^ b
two_pow-le a b h =
    let e : b ≡ a + (b - a) = omega arith in
    let s : 2 ^ b ≡ 2 ^ a * 2 ^ (b - a) = ap (λ (n : ℕ). 2 ^ n) e ∙ two_pow-add a (b - a) in
    let pos = two_pow-pos (b - a) in
    let m : 2 ^ a * 1 ≤ 2 ^ a * 2 ^ (b - a) = grind arith in omega (arith, s, m)

low_part-lt : (address a : ℕ) → a ≤ 10 → address % 2 ^ (10 - a) * 2 ^ a < 2 ^ 10
low_part-lt address a h =
    let s = shift-lt (address % 2 ^ (10 - a)) (10 - a) a (mod-lt address (two_pow-pos (10 - a))) in
    let ten : 10 - a + a ≡ 10 = omega arith in
    let e : 2 ^ (10 - a + a) ≡ 2 ^ 10 = ap (λ (n : ℕ). 2 ^ n) ten in omega (arith, s, e)

-- When the aligned bits lie below A10 and within the column, A10 is clear in a column's address: it
-- is left to the auto-precharge flag.
a10_clear :
    (g : Geometry) (address : ℕ)
    → g.address_align ≤ 10
    → g.address_align ≤ g.colbits
    → col_of g address / 2 ^ 10 % 2 ≡ 0
unfolding col_of
a10_clear g address le within = elim (Bool-cases (ltb 10 g.colbits)) [
  | inl wide ↦ rw wide (omega (arith, low_part-lt address g.address_align le))
  | inr narrow ↦
      let n = g.colbits - g.address_align in
      let s = shift-lt (address % 2 ^ n) n g.address_align (mod-lt address (two_pow-pos n)) in
      let t = two_pow-le (n + g.address_align) 10 (ground (arith, narrow)) in
      rw narrow (omega (arith, s, t))
]
