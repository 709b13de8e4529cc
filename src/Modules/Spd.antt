-- ===== src/Modules/Spd.antt =====
-- The decoding of SPD data in litedram/modules.py: `DDR3SPDData`, `DDR4SPDData` and
-- `SDRAMModule.from_spd_data`. The data is a list of bytes.
pub mod Fields
pub mod Decode
pub mod Total
use litedram.Base.{
  ℕ, zero, suc, ◌+◌, ◌-◌, ◌*◌, ◌/◌, ◌%◌, ◌^◌, Bool, true, false, ◌&&◌, Option, none, some, List, [],
  ◌∷◌, ◌==◌, ltb, if◌then◌else◌, get_elem?, bit_and, bit_or,
}
use litedram.Modules.Doubles.{Float, quotient, sum, mul, div, negate, is_zero}
use litedram.Modules.{Entry, Value, Mode, Error, Result, ◌>>=◌}
use litedram.Modules.Build.{
  SpeedgradeTimings, TechnologyTimings, Module, GeomSettings, TimingSettings, init,
}

unfoldable pub read_field : (byte nbits shift : ℕ) → ℕ
read_field byte nbits shift = bit_and byte ((2 ^ nbits - 1) * 2 ^ shift) / 2 ^ shift

-- A number and what is taken off it.
unfoldable pub twos_complement : (v nbits : ℕ) → ℕ × ℕ
twos_complement v nbits = (v, if bit_and v (2 ^ (nbits - 1)) == 0 then 0 else 2 ^ nbits)

unfoldable pub word : (msb lsb : ℕ) → ℕ
word msb lsb = bit_or (msb * 2 ^ 8) lsb

unfoldable pub msn : ℕ → ℕ
unfolding read_field
msn byte = read_field byte 4 4

unfoldable pub lsn : ℕ → ℕ
unfolding read_field
lsn byte = read_field byte 4 0

abbrev found : Option ℕ → Error → Result ℕ
found none e = Result.raise e
found (some n) e = Result.value n

-- `spd_data[i]`, and a dictionary whose keys are the numbers from 0 on.
unfoldable pub byte : List ℕ → ℕ → Result ℕ
byte spd i = found (get_elem? spd i) Error.index_error

unfoldable pub key : List ℕ → ℕ → Result ℕ
key values code = found (get_elem? values code) Error.key_error

pub record Geometry : Type 0 where
  pub nbanks : ℕ
  pub nrows : ℕ
  pub ncols : ℕ

unfoldable pub ddr3_geometry : List ℕ → Result Geometry
unfolding byte key read_field
ddr3_geometry spd = do
  b4 ← byte spd 4
  bankbits ← key (3 ∷ 4 ∷ 5 ∷ 6 ∷ []) (read_field b4 3 4)
  b5 ← byte spd 5
  rowbits ← key (12 ∷ 13 ∷ 14 ∷ 15 ∷ 16 ∷ []) (read_field b5 3 3)
  colbits ← key (9 ∷ 10 ∷ 11 ∷ 12 ∷ []) (read_field b5 3 0)
  Result.value (record { nbanks = 2 ^ bankbits; nrows = 2 ^ rowbits; ncols = 2 ^ colbits })

unfoldable pub ddr4_geometry : List ℕ → Result Geometry
unfolding byte key read_field
ddr4_geometry spd = do
  b4 ← byte spd 4
  bankgroupbits ← key (0 ∷ 1 ∷ 2 ∷ []) (read_field b4 2 6)
  bankbits ← key (2 ∷ 3 ∷ []) (read_field b4 2 4)
  b5 ← byte spd 5
  rowbits ← key (12 ∷ 13 ∷ 14 ∷ 15 ∷ 16 ∷ 17 ∷ 18 ∷ []) (read_field b5 3 3)
  colbits ← key (9 ∷ 10 ∷ 11 ∷ 12 ∷ []) (read_field b5 3 0)
  Result.value (record {
    nbanks = 2 ^ bankgroupbits * 2 ^ bankbits;
    nrows = 2 ^ rowbits;
    ncols = 2 ^ colbits;
  })

-- `medium_timebase_ns` and `fine_timebase_ns`.
pub record Timebase : Type 0 where
  pub medium : Float
  pub fine : Float

unfoldable pub ddr3_timebase : List ℕ → Result Timebase
unfolding byte read_field
ddr3_timebase spd = do
  b9 ← byte spd 9
  fine_divisor ← nonzero (read_field b9 4 0)
  medium_dividend ← byte spd 10
  b11 ← byte spd 11
  medium_divisor ← nonzero b11
  Result.value (record {
    medium = quotient medium_dividend medium_divisor;
    fine = mul (quotient (read_field b9 4 4) fine_divisor) (quotient 1 1000);
  })
  where
    nonzero : ℕ → Result ℕ
    nonzero n = if n == 0 then Result.raise Error.zero_division else Result.value n

unfoldable pub ddr4_timebase : List ℕ → Result Timebase
unfolding byte key read_field
ddr4_timebase spd = do
  b17 ← byte spd 17
  medium ← key (125 ∷ []) (read_field b17 2 2)
  fine ← key (1 ∷ []) (read_field b17 2 0)
  Result.value (record { medium = quotient medium 1000; fine = quotient fine 1000 })

unfoldable pub txx : Timebase → (mtb ftb : ℕ) → Float
unfolding twos_complement mul sum quotient
txx base mtb ftb =
    let (up, down) = twos_complement ftb 8 in
    sum (mul (quotient mtb 1) base.medium)
      (mul (record { plus = up; minus = down; den = 1 }) base.fine)

-- `2 * (1 / (tck_ns * 1e-9)) / 1e6`, in the order of the source, of a clock in seconds.
unfoldable pub seconds : Float → Float
unfolding mul quotient
seconds tck_ns = mul tck_ns (quotient 1 (10 ^ 9))

unfoldable pub freq_mhz : (tck : Float) → Float
unfolding mul div quotient
freq_mhz tck = mul (div (div (quotient 1 1) tck) (quotient (10 ^ 6) 1)) (quotient 2 1)

-- `abs(freq_mhz - f) < max_error`.
unfoldable pub near_grade : Float → ℕ → Bool
unfolding sum quotient
near_grade freq f =
    let error = sum freq (negate (quotient f 1)) in
    ltb error.plus (error.minus + 2 * error.den) && ltb error.minus (error.plus + 2 * error.den)

unfoldable pub matching : List ℕ → (freq : Float) → Result ℕ
unfolding near_grade
matching [] freq = Result.raise Error.value_error
matching (f ∷ grades) freq =
    let rest = matching grades freq in if near_grade freq f then Result.value f else rest

unfoldable pub speedgrade_freq : List ℕ → (tck_ns : Float) → Result ℕ
unfolding seconds freq_mhz matching is_zero
speedgrade_freq grades tck_ns =
    if is_zero (seconds tck_ns)
    then Result.raise Error.zero_division
    else matching grades (freq_mhz (seconds tck_ns))
