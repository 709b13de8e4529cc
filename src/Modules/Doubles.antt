-- ===== src/Modules/Doubles.antt =====
-- The arithmetic of Python's floats that litedram/modules.py relies on: IEEE 754 doubles, as exact
-- fractions whose numerator has 53 bits. Each operation is the exact one, rounded to the nearest, to
-- even on a tie. The exponent is not bounded: the times and clocks of memories are far from its ends.
use litedram.Base.{ℕ, zero, suc, ◌+◌, ◌-◌, ◌*◌, ◌/◌, ◌%◌, ◌^◌, Bool, ◌==◌, ltb, if◌then◌else◌}

-- `(plus - minus) / den`.
pub record Float : Type 0 where
  pub plus : ℕ
  pub minus : ℕ
  pub den : ℕ

-- The number of bits of a number, of which `fuel` are counted.
unfoldable pub bits : (fuel n : ℕ) → ℕ
bits zero n = 0
bits (suc fuel) n = let rest = bits fuel (n / 2) in if n == 0 then 0 else suc rest

-- The integer nearest to `n / d`.
unfoldable pub nearest : (n d : ℕ) → ℕ
nearest n d =
    let q = n / d in
    let r = n % d in
    if ltb (2 * r) d then q else if ltb d (2 * r) then suc q else if q % 2 == 0 then q else suc q

-- `n / d` is between `2 ^ (a - b - 1)` and `2 ^ (a - b + 1)`, with `a` and `b` the bits of `n` and `d`,
-- of which a double has at most 1024 on either side of the point.
unfoldable pub round : (n d : ℕ) → ℕ × ℕ
unfolding bits nearest
round n d =
    let a = bits 2200 n in
    let b = bits 2200 d in
    let scaled = n * 2 ^ (b + 53) in
    let unit = d * 2 ^ a in
    let step = if ltb scaled (2 ^ 53 * unit) then 1 else 2 in
    let m = nearest scaled (step * unit) in
    if n == 0 then (0, 1) else (m * step * 2 ^ (a - (b + 53)), 2 ^ (b + 53 - a))

unfoldable pub rounded : Float → Float
unfolding round
rounded x =
    let (up, up_den) = round (x.plus - x.minus) x.den in
    let (down, down_den) = round (x.minus - x.plus) x.den in
    if ltb x.plus x.minus
    then record { plus = 0; minus = down; den = down_den }
    else record { plus = up; minus = 0; den = up_den }

-- A literal, an integer that is converted, and the quotient of two integers.
unfoldable pub quotient : (n d : ℕ) → Float
unfolding rounded
quotient n d = rounded (record { plus = n; minus = 0; den = d })

unfoldable pub sum : Float → Float → Float
unfolding rounded
sum x y = rounded (record {
  plus = x.plus * y.den + y.plus * x.den;
  minus = x.minus * y.den + y.minus * x.den;
  den = x.den * y.den;
})

abbrev pub negate : Float → Float
negate x = record { plus = x.minus; minus = x.plus; den = x.den }

unfoldable pub mul : Float → Float → Float
unfolding rounded
mul x y = rounded (record {
  plus = x.plus * y.plus + x.minus * y.minus;
  minus = x.plus * y.minus + x.minus * y.plus;
  den = x.den * y.den;
})

-- By a number other than 0.
unfoldable pub div : Float → Float → Float
unfolding rounded
div x y = rounded (
    if ltb y.minus y.plus
    then record { plus = x.plus * y.den; minus = x.minus * y.den; den = x.den * (y.plus - y.minus) }
    else record {
      plus = x.minus * y.den;
      minus = x.plus * y.den;
      den = x.den * (y.minus - y.plus);
    })

unfoldable pub is_zero : Float → Bool
is_zero x = x.plus == x.minus

-- `ceil`, and 0 for a negative number.
unfoldable pub ceil : Float → ℕ
ceil x = (x.plus - x.minus + (x.den - 1)) / x.den
