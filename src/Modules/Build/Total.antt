-- ===== src/Modules/Build/Total.antt =====
-- Which tables of timings `SDRAMModule.__init__` of litedram/modules.py accepts.
use litedram.Base.{ℕ, ◌≡◌, refl, ◌↔◌, Bool, true, false, Option, none, some}
use litedram.Modules.{
  add, entry_timing, select, Value, Mode, Result, >>=-eq-value, get, Rated, ck_ns_to_cycles-value,
  ck_ns_to_cycles-Rated,
}
use litedram.Modules.Build.{
  SpeedgradeTimings, TechnologyTimings, TimingSettings, required, optional, row_cycle,
  timing_settings,
}

-- A timing, or none of one, that is no dictionary, and one that has an entry for the mode just when
-- there is a mode.
abbrev pub Fits : Option Mode → Option Value → Type 0
Fits none (some (Value.plain e)) = Unit {0}
Fits (some m) (some (Value.by_mode a b c)) = Unit {0}
Fits _ _ = ⊥

abbrev pub MaybePlain : Option Value → Type 0
MaybePlain none = Unit {0}
MaybePlain (some (Value.plain e)) = Unit {0}
MaybePlain (some (Value.by_mode a b c)) = ⊥

pub record Complete (s : SpeedgradeTimings) (t : TechnologyTimings) (mode : Option Mode)
    : Type 0 where
  pub trp : Fits none s.trp
  pub trcd : Fits none s.trcd
  pub twr : Fits none s.twr
  pub trefi : Fits mode t.trefi
  pub trfc : Fits mode s.trfc
  pub twtr : Fits none t.twtr
  pub tfaw : MaybePlain s.tfaw
  pub tccd : MaybePlain t.tccd
  pub trrd : MaybePlain t.trrd
  pub tras : MaybePlain s.tras
  pub tzqcs : MaybePlain t.tzqcs

-- In these cases, and in no other, the cycles are computed.
module _ (clk_freq num denom : ℕ) where
  required-value :
      (margin : Bool) (mode : Option Mode) (v : Option Value)
      → Rated clk_freq num denom
      → Fits mode v
      → (n : ℕ) × (required clk_freq num denom margin v mode ≡ Result.value n)
  unfolding required get
  required-value margin none none rated fits = elim fits [ ]
  required-value margin (some m) none rated fits = elim fits [ ]
  required-value margin (some m) (some (Value.plain e)) rated fits = elim fits [ ]
  required-value margin none (some (Value.by_mode a b c)) rated fits = elim fits [ ]
  required-value margin none (some (Value.plain e)) rated fits =
      ck_ns_to_cycles-value clk_freq num denom margin (entry_timing e) rated
  required-value margin (some m) (some (Value.by_mode a b c)) rated fits =
      ck_ns_to_cycles-value clk_freq num denom margin (entry_timing (select m a b c)) rated

  optional-value :
      (v : Option Value)
      → Rated clk_freq num denom
      → MaybePlain v
      → (n : Option ℕ) × (optional clk_freq num denom v ≡ Result.value n)
  unfolding optional get
  optional-value none rated fits = (_, refl)
  optional-value (some (Value.plain e)) rated fits =
      let (_, n) = ck_ns_to_cycles-value clk_freq num denom true (entry_timing e) rated in
      rw n (_, refl)
  optional-value (some (Value.by_mode a b c)) rated fits = elim fits [ ]

  row_cycle-value :
      (v w : Option Value)
      → Rated clk_freq num denom
      → Fits none v
      → MaybePlain w
      → (n : Option ℕ) × (row_cycle clk_freq num denom v w ≡ Result.value n)
  unfolding row_cycle get
  row_cycle-value none w rated p q = elim p [ ]
  row_cycle-value (some (Value.by_mode a b c)) w rated p q = elim p [ ]
  row_cycle-value (some (Value.plain e)) (some (Value.by_mode a b c)) rated p q = elim q [ ]
  row_cycle-value (some (Value.plain e)) none rated p q = (_, refl)
  row_cycle-value (some (Value.plain e)) (some (Value.plain f)) rated p q =
      let both = add (entry_timing e) (entry_timing f) in
      let (_, n) = ck_ns_to_cycles-value clk_freq num denom true both rated in rw n (_, refl)

  required-Fits :
      (margin : Bool) (mode : Option Mode) (v : Option Value) {n : ℕ}
      → required clk_freq num denom margin v mode ≡ Result.value n
      → Fits mode v
  unfolding required get
  required-Fits margin none none e = cc
  required-Fits margin (some m) none e = cc
  required-Fits margin (some m) (some (Value.plain a)) e = cc
  required-Fits margin none (some (Value.by_mode a b c)) e = cc
  required-Fits margin none (some (Value.plain a)) e = tt
  required-Fits margin (some m) (some (Value.by_mode a b c)) e = tt

  optional-MaybePlain :
      (v : Option Value) {n : Option ℕ}
      → optional clk_freq num denom v ≡ Result.value n
      → MaybePlain v
  unfolding optional get
  optional-MaybePlain none e = tt
  optional-MaybePlain (some (Value.plain a)) e = tt
  optional-MaybePlain (some (Value.by_mode a b c)) e = cc

  pub Complete-timing_settings :
      (s : SpeedgradeTimings) (t : TechnologyTimings) (mode : Option Mode)
      → Rated clk_freq num denom
      → Complete s t mode
      → (v : TimingSettings) × (timing_settings clk_freq num denom s t mode ≡ Result.value v)
  unfolding timing_settings
  Complete-timing_settings s t mode rated c =
      let (_, trp) = required-value true none s.trp rated c.trp in
      let (_, trcd) = required-value true none s.trcd rated c.trcd in
      let (_, twr) = required-value true none s.twr rated c.twr in
      let (_, trefi) = required-value false mode t.trefi rated c.trefi in
      let (_, trfc) = required-value true mode s.trfc rated c.trfc in
      let (_, twtr) = required-value true none t.twtr rated c.twtr in
      let (_, tfaw) = optional-value s.tfaw rated c.tfaw in
      let (_, tccd) = optional-value t.tccd rated c.tccd in
      let (_, trrd) = optional-value t.trrd rated c.trrd in
      let (_, trc) = row_cycle-value s.trp s.tras rated c.trp c.tras in
      let (_, tras) = optional-value s.tras rated c.tras in
      let (_, tzqcs) = optional-value t.tzqcs rated c.tzqcs in
      rw (trp, trcd, twr, trefi, trfc, twtr, tfaw, tccd, trrd, trc, tras, tzqcs) (_, refl)

  required-Rated :
      (margin : Bool) (mode : Option Mode) (v : Option Value) {n : ℕ}
      → required clk_freq num denom margin v mode ≡ Result.value n
      → Rated clk_freq num denom
  unfolding required get
  required-Rated margin none none e = cc
  required-Rated margin (some m) none e = cc
  required-Rated margin (some m) (some (Value.plain a)) e = cc
  required-Rated margin none (some (Value.by_mode a b c)) e = cc
  required-Rated margin none (some (Value.plain a)) e =
      ck_ns_to_cycles-Rated clk_freq num denom margin (entry_timing a) e
  required-Rated margin (some m) (some (Value.by_mode a b c)) e =
      ck_ns_to_cycles-Rated clk_freq num denom margin (entry_timing (select m a b c)) e

  settings-Rated :
      (s : SpeedgradeTimings) (t : TechnologyTimings) (mode : Option Mode) {v : TimingSettings}
      → timing_settings clk_freq num denom s t mode ≡ Result.value v
      → Rated clk_freq num denom
  unfolding timing_settings
  settings-Rated s t mode e =
      let (_, trp, _) = >>=-eq-value (required clk_freq num denom true s.trp none) _ e in
      required-Rated true none s.trp trp

  tables-Complete :
      (s : SpeedgradeTimings) (t : TechnologyTimings) (mode : Option Mode) {v : TimingSettings}
      → timing_settings clk_freq num denom s t mode ≡ Result.value v
      → Complete s t mode
  unfolding timing_settings
  tables-Complete s t mode e =
      let (_, trp, e1) = >>=-eq-value (required clk_freq num denom true s.trp none) _ e in
      let (_, trcd, e2) = >>=-eq-value (required clk_freq num denom true s.trcd none) _ e1 in
      let (_, twr, e3) = >>=-eq-value (required clk_freq num denom true s.twr none) _ e2 in
      let (_, trefi, e4) = >>=-eq-value (required clk_freq num denom false t.trefi mode) _ e3 in
      let (_, trfc, e5) = >>=-eq-value (required clk_freq num denom true s.trfc mode) _ e4 in
      let (_, twtr, e6) = >>=-eq-value (required clk_freq num denom true t.twtr none) _ e5 in
      let (_, tfaw, e7) = >>=-eq-value (optional clk_freq num denom s.tfaw) _ e6 in
      let (_, tccd, e8) = >>=-eq-value (optional clk_freq num denom t.tccd) _ e7 in
      let (_, trrd, e9) = >>=-eq-value (optional clk_freq num denom t.trrd) _ e8 in
      let (_, trc, e10) = >>=-eq-value (row_cycle clk_freq num denom s.trp s.tras) _ e9 in
      let (_, tras, e11) = >>=-eq-value (optional clk_freq num denom s.tras) _ e10 in
      let (_, tzqcs, e12) = >>=-eq-value (optional clk_freq num denom t.tzqcs) _ e11 in
      record {
        trp = required-Fits true none s.trp trp;
        trcd = required-Fits true none s.trcd trcd;
        twr = required-Fits true none s.twr twr;
        trefi = required-Fits false mode t.trefi trefi;
        trfc = required-Fits true mode s.trfc trfc;
        twtr = required-Fits true none t.twtr twtr;
        tfaw = optional-MaybePlain s.tfaw tfaw;
        tccd = optional-MaybePlain t.tccd tccd;
        trrd = optional-MaybePlain t.trrd trrd;
        tras = optional-MaybePlain s.tras tras;
        tzqcs = optional-MaybePlain t.tzqcs tzqcs;
      }

  -- The settings are computed without an exception exactly where the rate is "1:denom", `denom` and
  -- the clock are not 0, the timings that the controller cannot do without are given, tREFI and tRFC
  -- are dictionaries of refresh modes just when there is a mode, and no other timing is one.
  pub timing_settings-Complete :
      (s : SpeedgradeTimings) (t : TechnologyTimings) (mode : Option Mode)
      → ((v : TimingSettings) × (timing_settings clk_freq num denom s t mode ≡ Result.value v))
        ↔ (Rated clk_freq num denom × Complete s t mode)
  timing_settings-Complete s t mode = (
    λ (v, e). (settings-Rated s t mode e, tables-Complete s t mode e),
    λ (rated, c). Complete-timing_settings s t mode rated c,
  )
