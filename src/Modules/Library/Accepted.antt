-- ===== src/Modules/Library/Accepted.antt =====
-- `SDRAMModule.__init__` of litedram/modules.py builds each module of the library.
use mathlib.Core.Path.{subst}
use litedram.Base.{
  ℕ, zero, suc, ◌^◌, ◌<◌, ◌≡◌, refl, sym, ap, ◌∙◌, arith, Bool, true, false, ◌&&◌, Option, none,
  some, List, [], ◌∷◌, ◌==◌, if◌then◌else◌, &&-parts, Bool-cases, inl, inr, get_elem?, some_inj,
}
use litedram.Modules.{Value, Mode, Result}
use litedram.Modules.Build.{
  SpeedgradeTimings, TechnologyTimings, Module, GeomSettings, TimingSettings, geom_settings,
  refresh_mode, same_grade, grade_timings, init,
}
use litedram.Modules.Build.Total.{Fits, MaybePlain, Complete, Complete-timing_settings}
use litedram.Modules.Library.Sdr.{
  is42s16160, is42s16320, is42s32800j6, is42vm32160g, mt48lc4m16, hy57v641620ftp, mt48lc16m16,
  mt48lc32m8, as4c4m16, as4c16m16, as4c32m16, as4c32m8, m12l64322a, em638165, em638325, em636165,
  m12l16161a, nds36pt5, w9825g6kh6, w9812g6jb, w9864g6jt, w989d6dbgx6,
}
use litedram.Modules.Library.Ddr.{
  mt46v32m16, mt46h32m16, mt46h64m16, mt46h128m16, mt46h32m32, mt47h128m8, mt47h32m16, mt47h64m16,
  p3r1ge4jgf,
}
use litedram.Modules.Library.Ddr3.{
  as4c128m16, mt41k64m16, mt41j256m8, mt41k256m8, mt41j128m16, imd128m16r39cg8gnf, mt41j256m16,
  mt41j512m16,
}
use litedram.Modules.Library.Ddr3More.{
  k4b1g0446f, k4b2g1646f, h5tc4g63cfr, h5tq4g63cfr, is43tr16128b, is43tr16256a, is43tr16512b,
}
use litedram.Modules.Library.Ddr3Dimm.{
  mt8jtf12864, mt8ktf51264, mt18ksf1g72hz, as4c256m16d3a, as4c256m16d3c, mt16ktf1g64hz, em6ga16l,
}
use litedram.Modules.Library.Ddr4.{
  edy4016a, mt40a1g8, mt40a2g8, mt40a256m16, mt40a512m8, mt40a512m16,
}
use litedram.Modules.Library.Ddr4Dimm.{
  kvr21se15s84, mta4atf51264hz, mta18asf2g72pz, hma82gr7djr4n, m393a2k40db3, mt53e256m16d1,
}

abbrev pub library : List Module
library =
    is42s16160 ∷ is42s16320 ∷ is42s32800j6 ∷ is42vm32160g ∷ mt48lc4m16 ∷ hy57v641620ftp
    ∷ mt48lc16m16 ∷ mt48lc32m8 ∷ as4c4m16 ∷ as4c16m16 ∷ as4c32m16 ∷ as4c32m8 ∷ m12l64322a ∷ em638165
    ∷ em638325 ∷ em636165 ∷ m12l16161a ∷ nds36pt5 ∷ w9825g6kh6 ∷ w9812g6jb ∷ w9864g6jt ∷ w989d6dbgx6
    ∷ mt46v32m16 ∷ mt46h32m16 ∷ mt46h64m16 ∷ mt46h128m16 ∷ mt46h32m32 ∷ mt47h128m8 ∷ mt47h32m16
    ∷ mt47h64m16 ∷ p3r1ge4jgf ∷ as4c128m16 ∷ mt41k64m16 ∷ mt41j256m8 ∷ mt41k256m8 ∷ mt41j128m16
    ∷ imd128m16r39cg8gnf ∷ mt41j256m16 ∷ mt41j512m16 ∷ k4b1g0446f ∷ k4b2g1646f ∷ h5tc4g63cfr
    ∷ h5tq4g63cfr ∷ is43tr16128b ∷ is43tr16256a ∷ is43tr16512b ∷ mt8jtf12864 ∷ mt8ktf51264
    ∷ mt18ksf1g72hz ∷ as4c256m16d3a ∷ as4c256m16d3c ∷ mt16ktf1g64hz ∷ em6ga16l ∷ edy4016a ∷ mt40a1g8
    ∷ mt40a2g8 ∷ mt40a256m16 ∷ mt40a512m8 ∷ mt40a512m16 ∷ kvr21se15s84 ∷ mta4atf51264hz
    ∷ mta18asf2g72pz ∷ hma82gr7djr4n ∷ m393a2k40db3 ∷ mt53e256m16d1 ∷ []

abbrev plain? : Option Value → Bool
plain? (some (Value.plain e)) = true
plain? _ = false

abbrev maybe_plain? : Option Value → Bool
maybe_plain? none = true
maybe_plain? v = plain? v

abbrev refresh? : Bool → Option Value → Bool
refresh? false v = plain? v
refresh? true (some (Value.by_mode a b c)) = true
refresh? true _ = false

abbrev complete? : Bool → TechnologyTimings → SpeedgradeTimings → Bool
complete? ddr4 t s =
    plain? s.trp
    && plain? s.trcd
    && plain? s.twr
    && refresh? ddr4 t.trefi
    && refresh? ddr4 s.trfc
    && plain? t.twtr
    && maybe_plain? s.tfaw
    && maybe_plain? t.tccd
    && maybe_plain? t.trrd
    && maybe_plain? s.tras
    && maybe_plain? t.tzqcs

abbrev all_complete? : Bool → TechnologyTimings → List (Option ℕ × SpeedgradeTimings) → Bool
all_complete? ddr4 t [] = true
all_complete? ddr4 t ((k, s) ∷ rest) = complete? ddr4 t s && all_complete? ddr4 t rest

-- The exponent up to a bound, for a power of two.
abbrev exponent : ℕ → ℕ → Option ℕ
exponent zero n = none
exponent (suc k) n = let rest = exponent k n in if n == 2 ^ k then some k else rest

abbrev power? : ℕ → Bool
power? n = elim (exponent 20 n) [ none ↦ false | some k ↦ true ]

abbrev accepted? : Module → Bool
accepted? m =
    power? m.nbanks
    && power? m.nrows
    && power? m.ncols
    && all_complete? m.is_ddr4 m.technology_timings m.speedgrade_timings

abbrev all_accepted? : List Module → Bool
all_accepted? [] = true
all_accepted? (m ∷ ms) = accepted? m && all_accepted? ms

accepted_at :
    (ms : List Module) (i : ℕ) (m : Module)
    → all_accepted? ms ≡ true
    → get_elem? ms i ≡ some m
    → accepted? m ≡ true
accepted_at [] i m all e = cc
accepted_at (n ∷ ms) zero m all e =
    subst (λ k. accepted? k ≡ true) (some_inj e) (&&-parts (accepted? n) _ all).0
accepted_at (n ∷ ms) (suc i) m all e = accepted_at ms i m (&&-parts (accepted? n) _ all).1 e

plain-Fits : (v : Option Value) → plain? v ≡ true → Fits none v
plain-Fits none e = cc
plain-Fits (some (Value.plain a)) e = tt
plain-Fits (some (Value.by_mode a b c)) e = cc

optional-MaybePlain : (v : Option Value) → maybe_plain? v ≡ true → MaybePlain v
optional-MaybePlain none e = tt
optional-MaybePlain (some (Value.plain a)) e = tt
optional-MaybePlain (some (Value.by_mode a b c)) e = cc

-- The mode that `__init__` settles on fits the tables of the technology.
refresh-Fits :
    (ddr4 : Bool) (asked mode : Option Mode) (v : Option Value)
    → refresh_mode ddr4 asked ≡ Result.value mode
    → refresh? ddr4 v ≡ true
    → Fits mode v
unfolding refresh_mode
refresh-Fits false none none v e r = plain-Fits v r
refresh-Fits false none (some k) v e r = cc
refresh-Fits false (some m) mode v e r = cc
refresh-Fits true asked mode none e r = cc
refresh-Fits true asked mode (some (Value.plain a)) e r = cc
refresh-Fits true none none (some (Value.by_mode a b c)) e r = cc
refresh-Fits true none (some k) (some (Value.by_mode a b c)) e r = tt
refresh-Fits true (some m) none (some (Value.by_mode a b c)) e r = cc
refresh-Fits true (some m) (some k) (some (Value.by_mode a b c)) e r = tt

tables-Complete :
    (ddr4 : Bool) (t : TechnologyTimings) (s : SpeedgradeTimings) (asked mode : Option Mode)
    → refresh_mode ddr4 asked ≡ Result.value mode
    → complete? ddr4 t s ≡ true
    → Complete s t mode
tables-Complete ddr4 t s asked mode e c =
    let (c1, tzqcs) = &&-parts _ (maybe_plain? t.tzqcs) c in
    let (c2, tras) = &&-parts _ (maybe_plain? s.tras) c1 in
    let (c3, trrd) = &&-parts _ (maybe_plain? t.trrd) c2 in
    let (c4, tccd) = &&-parts _ (maybe_plain? t.tccd) c3 in
    let (c5, tfaw) = &&-parts _ (maybe_plain? s.tfaw) c4 in
    let (c6, twtr) = &&-parts _ (plain? t.twtr) c5 in
    let (c7, trfc) = &&-parts _ (refresh? ddr4 s.trfc) c6 in
    let (c8, trefi) = &&-parts _ (refresh? ddr4 t.trefi) c7 in
    let (c9, twr) = &&-parts _ (plain? s.twr) c8 in
    let (trp, trcd) = &&-parts _ (plain? s.trcd) c9 in
    record {
      trp = plain-Fits s.trp trp;
      trcd = plain-Fits s.trcd trcd;
      twr = plain-Fits s.twr twr;
      trefi = refresh-Fits ddr4 asked mode t.trefi e trefi;
      trfc = refresh-Fits ddr4 asked mode s.trfc e trfc;
      twtr = plain-Fits t.twtr twtr;
      tfaw = optional-MaybePlain s.tfaw tfaw;
      tccd = optional-MaybePlain t.tccd tccd;
      trrd = optional-MaybePlain t.trrd trrd;
      tras = optional-MaybePlain s.tras tras;
      tzqcs = optional-MaybePlain t.tzqcs tzqcs;
    }

value_inj : {A : Type 0} {a b : A} → Result.value a ≡ Result.value b → a ≡ b
value_inj e = cc

grade_complete :
    (ddr4 : Bool) (t : TechnologyTimings) (table : List (Option ℕ × SpeedgradeTimings))
    (grade : Option ℕ) (s : SpeedgradeTimings)
    → all_complete? ddr4 t table ≡ true
    → grade_timings grade table ≡ Result.value s
    → complete? ddr4 t s ≡ true
unfolding grade_timings
grade_complete ddr4 t [] grade s all e = cc
grade_complete ddr4 t ((key, first) ∷ rest) grade s all e =
    let (here, there) = &&-parts (complete? ddr4 t first) _ all in
    elim (Bool-cases (same_grade grade key)) [
      | inl y ↦
          let q : first ≡ s =
            value_inj
              (sym (ap (λ b. if b then Result.value first else grade_timings grade rest) y) ∙ e) in
          subst (λ k. complete? ddr4 t k ≡ true) q here
      | inr n ↦
          grade_complete ddr4 t rest grade s there
            (sym (ap (λ b. if b then Result.value first else grade_timings grade rest) n) ∙ e)
    ]

exponent_lem :
    (k n : ℕ) → elim (exponent k n) [ none ↦ false | some j ↦ true ] ≡ true → (j : ℕ) × (n ≡ 2 ^ j)
exponent_lem zero n e = cc
exponent_lem (suc k) n e = elim (Bool-cases (n == 2 ^ k)) [
  | inl t ↦ (k, ground (arith, t))
  | inr f ↦ exponent_lem k n (
      sym (ap (λ b. elim (if b then some k else exponent k n) [ none ↦ false | some j ↦ true ]) f)
      ∙ e)
]

geom_value :
    (log2_int : ℕ → Option ℕ) (m : Module)
    → ((k : ℕ) → log2_int (2 ^ k) ≡ some k)
    → (power? m.nbanks && power? m.nrows && power? m.ncols) ≡ true
    → (g : GeomSettings) × (geom_settings log2_int m ≡ Result.value g)
unfolding geom_settings
geom_value log2_int m law p =
    let (q, col) = &&-parts _ (power? m.ncols) p in
    let (bank, row) = &&-parts (power? m.nbanks) (power? m.nrows) q in
    let (i, bank_is) = exponent_lem 20 m.nbanks bank in
    let (j, row_is) = exponent_lem 20 m.nrows row in
    let (k, col_is) = exponent_lem 20 m.ncols col in
    rw (ap log2_int bank_is ∙ law i, ap log2_int row_is ∙ law j, ap log2_int col_is ∙ law k)
      (_, refl)

-- For each module of the library, each speedgrade in its table and each refresh mode that the two
-- assertions allow it, `__init__` returns the settings and raises no exception, at every clock but 0
-- and every rate "1:denom" but "1:0", when `log2_int` takes a power of two to its exponent.
pub init-library :
    (clk_freq denom : ℕ) (log2_int : ℕ → Option ℕ) (i : ℕ) (m : Module) (grade : Option ℕ)
    (s : SpeedgradeTimings) (asked mode : Option Mode)
    → 0 < clk_freq
    → 0 < denom
    → ((k : ℕ) → log2_int (2 ^ k) ≡ some k)
    → get_elem? library i ≡ some m
    → grade_timings grade m.speedgrade_timings ≡ Result.value s
    → refresh_mode m.is_ddr4 asked ≡ Result.value mode
    → (settings : GeomSettings × TimingSettings) × (init clk_freq 1 denom log2_int m grade asked
        ≡ Result.value settings)
unfolding init
init-library clk_freq denom log2_int i m grade s asked mode clk rate law at known allowed =
    let (powers, tables) =
      &&-parts _ (all_complete? m.is_ddr4 m.technology_timings m.speedgrade_timings)
        (accepted_at library i m refl at) in
    let (g, geom) = geom_value log2_int m law powers in
    let c =
      grade_complete m.is_ddr4 m.technology_timings m.speedgrade_timings grade s tables known in
    let (v, timings) =
      Complete-timing_settings clk_freq 1 denom s m.technology_timings mode (refl, rate, clk)
        (tables-Complete m.is_ddr4 m.technology_timings s asked mode allowed c) in
    rw (geom, allowed, known, timings) (_, refl)
