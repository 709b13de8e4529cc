-- ===== src/Modules.antt =====
-- litedram/modules.py: the timings of a module, in time or in clocks of the DRAM or both, and the
-- cycles of the controller that `SDRAMModule` turns them into. A time is a float of nanoseconds.
pub mod Doubles
pub mod Build
pub mod Library
pub mod Spd
use litedram.Base.{
  ℕ, ◌+◌, ◌^◌, ◌<◌, max, Bool, true, false, Option, none, some, ◌==◌, if◌then◌else◌, ◌≡◌, refl,
  arith, inl, inr, Bool-cases,
}
use litedram.Modules.Doubles.{Float, sum, quotient, mul, div, negate, ceil}

-- A time of a table, which is written in nanoseconds with up to three decimals.
unfoldable pub ps : ℕ → Float
unfolding quotient
ps n = quotient n 1000

-- `Timing` and its sum.
pub record Timing : Type 0 where
  pub ck : ℕ
  pub ns : Float

unfoldable pub add : Timing → Timing → Timing
unfolding sum
add a b = record { ck = a.ck + b.ck; ns = sum a.ns b.ns }

-- An entry of a table: a time, or a pair of clocks and time of which either may be missing. One for
-- each refresh mode is a dictionary.
pub data Entry : Type 0 where
  time : Float → Entry
  pair : Option ℕ → Option Float → Entry

pub data Value : Type 0 where
  plain : Entry → Value
  by_mode : Entry → Entry → Entry → Value

pub data Mode : Type 0 where
  x1 x2 x4 : Mode

pub data Error : Type 0 where
  assertion key_error type_error attribute_error zero_division value_error index_error : Error

pub data Result (A : Type 0) : Type 0 where
  raise : Error → Result A
  value : A → Result A

infixl 5 ◌>>=◌
abbrev pub ◌>>=◌ : {A B : Type 0} → Result A → (A → Result B) → Result B
Result.raise e >>= f = Result.raise e
Result.value a >>= f = f a

-- Inversion of a chain that returns a value.
pub >>=-eq-value :
    {A B : Type 0} (r : Result A) (f : A → Result B) {b : B}
    → (r >>= f) ≡ Result.value b
    → (a : A) × (r ≡ Result.value a) × (f a ≡ Result.value b)
>>=-eq-value (Result.raise e) f h = cc
>>=-eq-value (Result.value a) f h = (a, refl, h)

abbrev pub or_zero : Option ℕ → ℕ
or_zero none = 0
or_zero (some n) = n

abbrev pub or_zero_time : Option Float → Float
or_zero_time none = ps 0
or_zero_time (some t) = t

unfoldable pub entry_timing : Entry → Timing
entry_timing (Entry.time t) = record { ck = 0; ns = t }
entry_timing (Entry.pair ck ns) = record { ck = or_zero ck; ns = or_zero_time ns }

abbrev pub select : Mode → Entry → Entry → Entry → Entry
select Mode.x1 a b c = a
select Mode.x2 a b c = b
select Mode.x4 a b c = c

-- `get`, after the look-up of the attribute: a dictionary without a mode is no timing, and a number or
-- a tuple has no modes.
unfoldable pub get : Option Value → Option Mode → Result (Option Timing)
unfolding entry_timing
get none m = Result.value none
get (some (Value.plain e)) none = Result.value (some (entry_timing e))
get (some (Value.plain e)) (some m) = Result.raise Error.type_error
get (some (Value.by_mode a b c)) none = Result.raise Error.type_error
get (some (Value.by_mode a b c)) (some m) = Result.value (some (entry_timing (select m a b c)))

-- `1e9 / clk_freq`, `clk_period_ns * (1 - 1 / denom)` and `(t + extra) / clk_period_ns`, rounded up;
-- the last is 0 where the source gets a negative number, which the maximum below never takes.
unfoldable pub period_of : (clk_freq : ℕ) → Float
unfolding quotient div
period_of clk_freq = div (quotient (10 ^ 9) 1) (quotient clk_freq 1)

unfoldable pub margin_of : (period : Float) (denom : ℕ) → Float
unfolding quotient mul sum
margin_of period denom = mul period (sum (quotient 1 1) (negate (quotient 1 denom)))

unfoldable pub periods_of : (period extra t : Float) → ℕ
unfolding sum div ceil
periods_of period extra t = ceil (div (sum t extra) period)

unfoldable pub clocks_of : (denom c : ℕ) → ℕ
unfolding quotient ceil
clocks_of denom c = ceil (quotient c denom)

-- The clock of the controller in Hz, and the numbers of the rate "num:denom".
module _ (clk_freq num denom : ℕ) where
  -- `rate_frac`, with what divides by `denom`.
  unfoldable pub rate_denom : Result ℕ
  rate_denom =
      if num == 1
      then (if denom == 0 then Result.raise Error.zero_division else Result.value denom)
      else Result.raise Error.assertion

  unfoldable pub clk_period_ns : Result Float
  clk_period_ns =
      if clk_freq == 0 then Result.raise Error.zero_division else Result.value (period_of clk_freq)

  -- `self.margin if margin else 0`.
  unfoldable pub margin_ns : (margin : Bool) → Result Float
  unfolding clk_period_ns rate_denom
  margin_ns true = do period ← clk_period_ns; d ← rate_denom; Result.value (margin_of period d)
  margin_ns false = Result.value (record { plus = 0; minus = 0; den = 1 })

  unfoldable pub ns_to_cycles : (margin : Bool) → Float → Result ℕ
  unfolding clk_period_ns margin_ns
  ns_to_cycles margin t = do
    period ← clk_period_ns
    extra ← margin_ns margin
    Result.value (periods_of period extra t)

  unfoldable pub ck_to_cycles : ℕ → Result ℕ
  unfolding rate_denom
  ck_to_cycles c = do d ← rate_denom; Result.value (clocks_of d c)

  unfoldable pub ck_ns_to_cycles : (margin : Bool) → Timing → Result ℕ
  unfolding ck_to_cycles ns_to_cycles
  ck_ns_to_cycles margin t = do
    by_ck ← ck_to_cycles t.ck
    by_ns ← ns_to_cycles margin t.ns
    Result.value (max by_ck by_ns)

  -- Where neither an assertion nor a division by zero ends the conversion.
  abbrev pub Rated : Type 0
  Rated = (num ≡ 1) × (0 < denom) × (0 < clk_freq)

  pub ck_ns_to_cycles-value :
      (margin : Bool) (t : Timing) → Rated → (n : ℕ) × (ck_ns_to_cycles margin t ≡ Result.value n)
  unfolding ck_ns_to_cycles ck_to_cycles ns_to_cycles margin_ns clk_period_ns rate_denom
  ck_ns_to_cycles-value margin t rated =
      let one : (num == 1) ≡ true = ground (arith, rated.0) in
      let some_denom : (denom == 0) ≡ false = ground (arith, rated.1) in
      let some_clk : (clk_freq == 0) ≡ false = ground (arith, rated.2) in
      elim margin as (λ b. (n : ℕ) × (ck_ns_to_cycles b t ≡ Result.value n)) [
        | true ↦ rw (one, some_denom, some_clk) (_, refl)
        | false ↦ rw (one, some_denom, some_clk) (_, refl)
      ]

  rate_denom-Rated : {n : ℕ} → rate_denom ≡ Result.value n → (num ≡ 1) × (0 < denom)
  unfolding rate_denom
  rate_denom-Rated e = elim (Bool-cases (num == 1)) [
    | inl one ↦ elim (Bool-cases (denom == 0)) [
      | inl z ↦ cc
      | inr nz ↦ (ground (arith, one), ground (arith, nz))
    ]
    | inr other ↦ cc
  ]

  clk_period_ns-Rated : {x : Float} → clk_period_ns ≡ Result.value x → 0 < clk_freq
  unfolding clk_period_ns
  clk_period_ns-Rated e = elim (Bool-cases (clk_freq == 0)) [
    | inl z ↦ cc
    | inr nz ↦ ground (arith, nz)
  ]

  pub ck_ns_to_cycles-Rated :
      (margin : Bool) (t : Timing) {n : ℕ} → ck_ns_to_cycles margin t ≡ Result.value n → Rated
  unfolding ck_ns_to_cycles ck_to_cycles ns_to_cycles clk_period_ns
  ck_ns_to_cycles-Rated margin t e =
      let (_, by_ck, e1) = >>=-eq-value (ck_to_cycles t.ck) _ e in
      let (_, by_ns, _) = >>=-eq-value (ns_to_cycles margin t.ns) _ e1 in
      let (_, rate, _) = >>=-eq-value rate_denom _ by_ck in
      let (_, period, _) = >>=-eq-value clk_period_ns _ by_ns in
      let (one, d) = rate_denom-Rated rate in (one, d, clk_period_ns-Rated period)
