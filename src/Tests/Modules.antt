-- ===== src/Tests/Modules.antt =====
-- The timings of litedram/modules.py for modules of the library and for the SPD data of the tests.
use litedram.Base.{
  ◌^◌, ◌<◌, ◌≡◌, refl, sym, ap, arith, ℕ, zero, suc, true, Option, none, some, List, [], ◌∷◌, ◌↔◌,
  ◌==◌, if◌then◌else◌, Bool-cases, inl, inr, ◌≢◌, lt-two_pow, two_pow-inj,
}
use litedram.Modules.{
  Timing, ps, ck_ns_to_cycles, period_of, margin_of, periods_of, clocks_of, Rated, Result, Error,
}
use litedram.Modules.Build.{
  SpeedgradeTimings, TechnologyTimings, TimingSettings, GeomSettings, init, timing_settings,
  grade_timings, refresh_mode,
}
use litedram.Modules.Build.Total.{Complete, timing_settings-Complete}
use litedram.Modules.Spd.Total.{geometry_bits}
use litedram.Modules.Library.{ns, clocks, at_least, technology, speedgrade}
use litedram.Modules.Library.Ddr3Dimm.{mt8jtf12864}
use litedram.Modules.Library.Accepted.{init-library}

-- 15 ns are 2 cycles of 100 MHz at a rate of 1:1 and, for the phases within a cycle, 3 at 1:4.
abbrev fifteen : Timing
unfolding ps
fifteen = record { ck = 0; ns = ps 15000 }

at_rate_one : ck_ns_to_cycles 100000000 1 1 true fifteen ≡ Result.value 2
unfolding ck_ns_to_cycles period_of margin_of periods_of clocks_of ps
at_rate_one = refl

at_rate_four : ck_ns_to_cycles 100000000 1 4 true fifteen ≡ Result.value 3
unfolding ck_ns_to_cycles period_of margin_of periods_of clocks_of ps
at_rate_four = refl

-- 62.5 ns are 11.25 periods of 180 MHz, and 12 with the margin of a rate of 1:4; the floats give 13.
abbrev beyond : Timing
unfolding ps
beyond = record { ck = 0; ns = ps 62500 }

one_too_many : ck_ns_to_cycles 180000000 1 4 true beyond ≡ Result.value 13
unfolding ck_ns_to_cycles period_of margin_of periods_of clocks_of ps
one_too_many = refl

no_clock : ck_ns_to_cycles 0 1 4 true beyond ≡ Result.raise Error.zero_division
unfolding ck_ns_to_cycles period_of margin_of periods_of clocks_of ps
no_clock = refl

-- The tables of an SDR module.
abbrev grade : SpeedgradeTimings
grade = speedgrade (ns 20000) (ns 20000) (ns 20000) (at_least 70000) none none

abbrev kind : TechnologyTimings
kind = technology (ns 7812500) (clocks 2) (clocks 1) none none

timing_settings-Complete_example :
    ((v : TimingSettings) × (timing_settings 100000000 1 1 grade kind none ≡ Result.value v))
    ↔ (Rated 100000000 1 1 × Complete grade kind none)
timing_settings-Complete_example = timing_settings-Complete 100000000 1 1 grade kind none

-- A `log2_int`.
abbrev find : ℕ → ℕ → Option ℕ
find zero n = none
find (suc k) n = let rest = find k n in if n == 2 ^ k then some k else rest

find_lem : (n k : ℕ) → k < n → find n (2 ^ k) ≡ some k
find_lem zero k l = elim l [ ]
find_lem (suc n) k l = elim (Bool-cases (2 ^ k == 2 ^ n)) [
  | inl t ↦ let e : k ≡ n = two_pow-inj k n (ground (arith, t)) in rw t (ap some (sym e))
  | inr f ↦
      let ne : k ≢ n = λ e. ground (arith, f, ap (λ (j : ℕ). 2 ^ j) e) in
      rw f (find_lem n k (omega arith))
]

abbrev log2_int : ℕ → Option ℕ
log2_int n = find n n

log2_int_lem : (k : ℕ) → log2_int (2 ^ k) ≡ some k
log2_int_lem k = find_lem (2 ^ k) k (lt-two_pow k)

init-library_example :
    (settings : GeomSettings × TimingSettings) × (init 100000000 1 4 log2_int mt8jtf12864
        (some 1066)
        none
      ≡ Result.value settings)
unfolding grade_timings refresh_mode
init-library_example =
    init-library 100000000 4 log2_int 46 mt8jtf12864 (some 1066) _ none none (omega arith)
      (omega arith) log2_int_lem refl refl refl

-- The first bytes of the SPD data of a MT8JTF12864AZ-1G4G1.
abbrev bytes : List ℕ
bytes =
    146 ∷ 16 ∷ 11 ∷ 2 ∷ 2 ∷ 17 ∷ 0 ∷ 1 ∷ 3 ∷ 82 ∷ 1 ∷ 8 ∷ 12 ∷ 0 ∷ 126 ∷ 0 ∷ 105 ∷ 120 ∷ 105 ∷ 48
    ∷ 105 ∷ 17 ∷ 32 ∷ 137 ∷ 112 ∷ 3 ∷ 60 ∷ 60 ∷ 0 ∷ 240 ∷ 130 ∷ 5 ∷ 0 ∷ 0 ∷ 0 ∷ 0 ∷ 0 ∷ 0 ∷ 0 ∷ []

-- The geometry of the data.
its_geometry :
    geometry_bits bytes ≡ record { bankbits = 3; rowbits = 14; colbits = 10; addressbits = 14 }
its_geometry = refl
