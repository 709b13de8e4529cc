-- ===== src/Modules/Build.antt =====
-- `SDRAMModule.__init__` of litedram/modules.py: the geometry and the timings, in cycles, of a module
-- that keeps its timings in the two tables. A speedgrade is a number, and `none` is "default".
pub mod Total
use litedram.Base.{
  ℕ, ◌+◌, ◌*◌, max, ◌≡◌, refl, arith, Bool, true, false, ◌||◌, Option, none, some, List, [], ◌∷◌,
  ◌==◌, if◌then◌else◌,
}
use litedram.Modules.{
  Timing, add, Entry, Value, Mode, Error, Result, ◌>>=◌, get, entry_timing, select, ck_ns_to_cycles,
}

pub record SpeedgradeTimings : Type 0 where
  pub trp : Option Value
  pub trcd : Option Value
  pub twr : Option Value
  pub trfc : Option Value
  pub tfaw : Option Value
  pub tras : Option Value

pub record TechnologyTimings : Type 0 where
  pub trefi : Option Value
  pub twtr : Option Value
  pub tccd : Option Value
  pub trrd : Option Value
  pub tzqcs : Option Value

pub record Module : Type 0 where
  pub is_ddr4 : Bool
  pub nbanks : ℕ
  pub nrows : ℕ
  pub ncols : ℕ
  pub technology_timings : TechnologyTimings
  pub speedgrade_timings : List (Option ℕ × SpeedgradeTimings)

pub record GeomSettings : Type 0 where
  pub bankbits : ℕ
  pub rowbits : ℕ
  pub colbits : ℕ
  pub addressbits : ℕ

pub record TimingSettings : Type 0 where
  pub trp : ℕ
  pub trcd : ℕ
  pub twr : ℕ
  pub trefi : ℕ
  pub trfc : ℕ
  pub twtr : ℕ
  pub tfaw : Option ℕ
  pub tccd : Option ℕ
  pub trrd : Option ℕ
  pub trc : Option ℕ
  pub tras : Option ℕ
  pub tzqcs : Option ℕ
  pub fine_refresh_mode : Option Mode

abbrev pub same_grade : Option ℕ → Option ℕ → Bool
same_grade none none = true
same_grade (some a) (some b) = a == b
same_grade none (some b) = false
same_grade (some a) none = false

unfoldable pub grade_timings :
    Option ℕ → List (Option ℕ × SpeedgradeTimings) → Result SpeedgradeTimings
grade_timings grade [] = Result.raise Error.key_error
grade_timings grade ((key, timings) ∷ rest) =
    let later = grade_timings grade rest in
    if same_grade grade key then Result.value timings else later

-- `log2_int` of migen, which fails on a number that is no power of two.
unfoldable pub geom_settings : (log2_int : ℕ → Option ℕ) → Module → Result GeomSettings
geom_settings log2_int m = do
  bankbits ← log2 (log2_int m.nbanks)
  rowbits ← log2 (log2_int m.nrows)
  colbits ← log2 (log2_int m.ncols)
  Result.value (record {
    bankbits = bankbits;
    rowbits = rowbits;
    colbits = colbits;
    addressbits = max rowbits colbits;
  })
  where
    log2 : Option ℕ → Result ℕ
    log2 none = Result.raise Error.value_error
    log2 (some n) = Result.value n

-- `fine_refresh_mode` after the two assertions and the default of DDR4.
unfoldable pub refresh_mode : (is_ddr4 : Bool) → Option Mode → Result (Option Mode)
refresh_mode true none = Result.value (some Mode.x1)
refresh_mode true (some m) = Result.value (some m)
refresh_mode false none = Result.value none
refresh_mode false (some m) = Result.raise Error.assertion

-- The clock, and the numbers of the rate "num:denom".
module _ (clk_freq num denom : ℕ) where
  -- `ck_ns_to_cycles(self.get(name, key))`, and the same on a timing that may be `None`.
  abbrev cycles : (margin : Bool) → Option Timing → Result ℕ
  cycles margin none = Result.raise Error.attribute_error
  cycles margin (some t) = ck_ns_to_cycles clk_freq num denom margin t

  unfoldable pub required : (margin : Bool) → Option Value → Option Mode → Result ℕ
  unfolding get
  required margin v mode = get v mode >>= cycles margin

  abbrev cycles_or_none : Option Timing → Result (Option ℕ)
  cycles_or_none none = Result.value none
  cycles_or_none (some t) = do n ← ck_ns_to_cycles clk_freq num denom true t; Result.value (some n)

  unfoldable pub optional : Option Value → Result (Option ℕ)
  unfolding get
  optional v = get v none >>= cycles_or_none

  abbrev sum_or_none : Option Timing → Option Timing → Result (Option ℕ)
  sum_or_none rp none = Result.value none
  sum_or_none none (some ras) = Result.raise Error.type_error
  sum_or_none (some rp) (some ras) = do
    n ← ck_ns_to_cycles clk_freq num denom true (add rp ras)
    Result.value (some n)

  -- `None` without a tRAS, and otherwise the cycles of the sum.
  unfoldable pub row_cycle : (trp tras : Option Value) → Result (Option ℕ)
  unfolding get
  row_cycle trp tras = do ras ← get tras none; rp ← get trp none; sum_or_none rp ras

  unfoldable pub timing_settings :
      SpeedgradeTimings → TechnologyTimings → Option Mode → Result TimingSettings
  unfolding required optional row_cycle
  timing_settings s t mode = do
    trp ← required true s.trp none
    trcd ← required true s.trcd none
    twr ← required true s.twr none
    trefi ← required false t.trefi mode
    trfc ← required true s.trfc mode
    twtr ← required true t.twtr none
    tfaw ← optional s.tfaw
    tccd ← optional t.tccd
    trrd ← optional t.trrd
    trc ← row_cycle s.trp s.tras
    tras ← optional s.tras
    tzqcs ← optional t.tzqcs
    Result.value (record {
      trp = trp;
      trcd = trcd;
      twr = twr;
      trefi = trefi;
      trfc = trfc;
      twtr = twtr;
      tfaw = tfaw;
      tccd = tccd;
      trrd = trrd;
      trc = trc;
      tras = tras;
      tzqcs = tzqcs;
      fine_refresh_mode = mode;
    })

  unfoldable pub init :
      (log2_int : ℕ → Option ℕ)
      → Module
      → (speedgrade : Option ℕ) → Option Mode
      → Result (GeomSettings × TimingSettings)
  unfolding geom_settings refresh_mode grade_timings timing_settings
  init log2_int m speedgrade fine_refresh_mode = do
    geom ← geom_settings log2_int m
    mode ← refresh_mode m.is_ddr4 fine_refresh_mode
    grade ← grade_timings speedgrade m.speedgrade_timings
    timings ← timing_settings grade m.technology_timings mode
    Result.value (geom, timings)
