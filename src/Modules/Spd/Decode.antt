-- ===== src/Modules/Spd/Decode.antt =====
-- `get_timings` of `DDR3SPDData` and `DDR4SPDData`, and `SDRAMModule.from_spd_data`, in
-- litedram/modules.py.
use litedram.Base.{
  ℕ, ◌*◌, ◌/◌, Bool, true, false, Option, none, some, List, [], ◌∷◌, ◌==◌, if◌then◌else◌,
}
use litedram.Modules.Doubles.{Float}
use litedram.Modules.{ps, Entry, Value, Mode, Error, Result, ◌>>=◌}
use litedram.Modules.Build.{
  SpeedgradeTimings, TechnologyTimings, Module, GeomSettings, TimingSettings, init,
}
use litedram.Modules.Spd.{
  read_field, word, msn, lsn, byte, key, Geometry, ddr3_geometry, ddr4_geometry, Timebase,
  ddr3_timebase, ddr4_timebase, txx, speedgrade_freq,
}

-- `txx_ns` of one byte, with or without the fine byte, and of two bytes.
unfoldable pub fine : List ℕ → Timebase → (i j : ℕ) → Result Float
unfolding byte
fine spd base i j = do m ← byte spd i; f ← byte spd j; Result.value (txx base m f)

unfoldable pub coarse : List ℕ → Timebase → ℕ → Result Float
unfolding byte
coarse spd base i = do m ← byte spd i; Result.value (txx base m 0)

unfoldable pub wide : List ℕ → Timebase → (nibble : ℕ → ℕ) → (i j : ℕ) → Result Float
unfolding byte word
wide spd base nibble i j = do
  h ← byte spd i
  l ← byte spd j
  Result.value (txx base (word (nibble h) l) 0)

abbrev plain_time : Float → Option Value
plain_time t = some (Value.plain (Entry.time t))

abbrev pair_time : Option ℕ → Option Float → Option Value
pair_time ck t = some (Value.plain (Entry.pair ck t))

pub record Timings : Type 0 where
  pub speedgrade : ℕ
  pub technology : TechnologyTimings
  pub grade : SpeedgradeTimings

-- The bytes that are read for a time that is not used are read all the same.
unfoldable pub ddr3_timings : List ℕ → Timebase → Result Timings
unfolding fine coarse wide lsn msn
ddr3_timings spd base = do
  tck_min ← fine spd base 12 34
  taa_min ← fine spd base 16 35
  twr_min ← coarse spd base 17
  trcd_min ← fine spd base 18 36
  trrd_min ← coarse spd base 19
  trp_min ← fine spd base 20 37
  tras_min ← wide spd base lsn 21 22
  trc_medium ← wide spd base msn 21 23
  trc_fine ← byte spd 38
  trfc_min ← wide spd base (λ b. b) 25 24
  twtr_min ← coarse spd base 26
  trtp_min ← coarse spd base 27
  tfaw_min ← wide spd base lsn 28 29
  speedgrade ← speedgrade_freq (800 ∷ 1066 ∷ 1333 ∷ 1600 ∷ 1866 ∷ 2133 ∷ []) tck_min
  Result.value (record {
    speedgrade = speedgrade;
    technology = record {
      trefi = plain_time (ps 7812500);
      twtr = pair_time (some 4) (some twtr_min);
      tccd = pair_time (some 4) none;
      trrd = pair_time (some 4) (some trrd_min);
      tzqcs = pair_time (some 64) (some (ps 80000));
    };
    grade = record {
      trp = plain_time trp_min;
      trcd = plain_time trcd_min;
      twr = plain_time twr_min;
      trfc = pair_time none (some trfc_min);
      tfaw = pair_time none (some tfaw_min);
      tras = plain_time tras_min;
    };
  })

-- The least number of clocks of tFAW, by the size of a page in bytes.
abbrev faw_clocks : ℕ → Result ℕ
faw_clocks page =
    if page == 512
    then Result.value 16
    else if page == 1024
    then Result.value 20
    else if page == 2048
    then Result.value 28
    else Result.raise Error.key_error

unfoldable pub ddr4_timings : List ℕ → Timebase → (ncols : ℕ) → Result Timings
unfolding fine coarse wide lsn msn key read_field
ddr4_timings spd base ncols = do
  tckavg_min ← fine spd base 18 125
  tckavg_max ← fine spd base 19 124
  taa_min ← fine spd base 24 123
  trcd_min ← fine spd base 25 122
  trp_min ← fine spd base 26 121
  tras_min ← wide spd base lsn 27 28
  trc_medium ← wide spd base msn 27 29
  trc_fine ← byte spd 120
  trfc1 ← wide spd base (λ b. b) 31 30
  trfc2 ← wide spd base (λ b. b) 33 32
  trfc4 ← wide spd base (λ b. b) 35 34
  tfaw_min ← wide spd base lsn 36 37
  trrd_s_min ← fine spd base 38 119
  trrd_l_min ← fine spd base 39 118
  tccd_l_min ← fine spd base 40 117
  twr_min ← wide spd base lsn 41 42
  twtr_s_min ← wide spd base lsn 43 44
  twtr_l_min ← wide spd base msn 43 45
  b12 ← byte spd 12
  sdram_device_width ← key (4 ∷ 8 ∷ 16 ∷ 32 ∷ []) (read_field b12 3 0)
  tfaw_min_ck ← faw_clocks (ncols * sdram_device_width / 8)
  speedgrade ← speedgrade_freq (1600 ∷ 1866 ∷ 2133 ∷ 2400 ∷ 2666 ∷ 2933 ∷ 3200 ∷ []) tckavg_min
  Result.value (record {
    speedgrade = speedgrade;
    technology = record {
      trefi = some (
          Value.by_mode (Entry.time (ps 7812500)) (Entry.time (ps 3906250))
            (Entry.time (ps 1953125)));
      twtr = pair_time (some 4) (some twtr_l_min);
      tccd = pair_time (some 4) (some tccd_l_min);
      trrd = pair_time (some 4) (some trrd_l_min);
      tzqcs = pair_time (some 128) (some (ps 80000));
    };
    grade = record {
      trp = plain_time trp_min;
      trcd = plain_time trcd_min;
      twr = plain_time twr_min;
      trfc = some (
          Value.by_mode (Entry.pair none (some trfc1)) (Entry.pair none (some trfc2))
            (Entry.pair none (some trfc4)));
      tfaw = pair_time (some tfaw_min_ck) (some tfaw_min);
      tras = plain_time tras_min;
    };
  })

-- The module of the data, with its speedgrade.
abbrev module_of : Bool → Geometry → Timings → Module
module_of ddr4 geometry timings = record {
  is_ddr4 = ddr4;
  nbanks = geometry.nbanks;
  nrows = geometry.nrows;
  ncols = geometry.ncols;
  technology_timings = timings.technology;
  speedgrade_timings = (some timings.speedgrade, timings.grade) ∷ (none, timings.grade) ∷ [];
}

unfoldable pub from_ddr3 : List ℕ → Result (Module × ℕ)
unfolding ddr3_geometry ddr3_timebase ddr3_timings
from_ddr3 spd = do
  geometry ← ddr3_geometry spd
  base ← ddr3_timebase spd
  timings ← ddr3_timings spd base
  Result.value (module_of false geometry timings, timings.speedgrade)

unfoldable pub from_ddr4 : List ℕ → Result (Module × ℕ)
unfolding ddr4_geometry ddr4_timebase ddr4_timings
from_ddr4 spd = do
  geometry ← ddr4_geometry spd
  base ← ddr4_timebase spd
  timings ← ddr4_timings spd base geometry.ncols
  Result.value (module_of true geometry timings, timings.speedgrade)

-- The class of the data by its byte 2: 0x0b for DDR3 and 0x0c for DDR4.
abbrev by_memtype : List ℕ → ℕ → Result (Module × ℕ)
by_memtype spd memtype =
    if memtype == 11
    then from_ddr3 spd
    else if memtype == 12
    then from_ddr4 spd
    else Result.raise Error.key_error

unfoldable pub decode : List ℕ → Result (Module × ℕ)
unfolding byte from_ddr3 from_ddr4
decode spd = byte spd 2 >>= by_memtype spd

-- Both classes have four phases: the rate is "1:4".
unfoldable pub from_spd_data :
    (log2_int : ℕ → Option ℕ)
    → List ℕ
    → (clk_freq : ℕ) → Option Mode
    → Result (GeomSettings × TimingSettings)
unfolding decode init
from_spd_data log2_int spd clk_freq fine_refresh_mode = do
  (m, speedgrade) ← decode spd
  init clk_freq 1 4 log2_int m (some speedgrade) fine_refresh_mode
