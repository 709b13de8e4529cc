-- ===== src/Init/Lpddr5/Mode.antt =====
-- What the DRAM reads from the LPDDR5 mode registers.
use mathlib.Core.Path.{subst}
use litedram.Base.{
  ℕ, ◌<◌, ◌+◌, ◌-◌, ◌/◌, ◌%◌, ◌^◌, ◌≤◌, ◌≡◌, refl, sym, ap, ◌∙◌, arith, Bool, true, ◌&&◌, some,
  List, [], ◌∷◌, ◌++◌, ◌==◌, if◌then◌else◌, some_inj, ==_iff, &&-parts, Bool-cases, inl, inr,
}
use litedram.Init.Table.{Table, lookup, below, below_lem, >>=-eq-some}
use litedram.Init.Load.{steps_of, Fits}
use litedram.Init.Sequence.{Init, Step, at, mode_register, loaded}
use litedram.Init.Register.{reg}
use litedram.Init.Electrical.{get_or}
use litedram.Init.Lpddr4.Tables.{Odt}
use litedram.Init.Lpddr4.Mode.{passes, passes-some}
use litedram.Init.Lpddr5.Clocks.{set_a_lem, ratio_lem}
use litedram.Init.Lpddr5.{
  Settings, FreqRange, frequency_ranges, get_frange, get_vref, mr1, mr2, mr3, mr10, mr11, vref_of,
  mr_vref, mr17, mr18, mr20, mr28, low_registers, high_registers, cmd_mr, cmds_of, sequence_with,
  get_lpddr5_phy_init_sequence,
}

-- The latencies that the DRAM selects by OP3 to OP0 of MR2, for a ratio of the clocks.
abbrev pub read_latency : ℕ → ℕ → ℕ
read_latency ratio m =
    get_or
      (lookup (m % 16) (
        if ratio == 2
        then (0, 6) ∷ (1, 8) ∷ (2, 10) ∷ (3, 12) ∷ (4, 16) ∷ (5, 18) ∷ []
        else (0, 3)
          ∷ (1, 4)
          ∷ (2, 5)
          ∷ (3, 6)
          ∷ (4, 8)
          ∷ (5, 9)
          ∷ (6, 10)
          ∷ (7, 12)
          ∷ (8, 13)
          ∷ (9, 15)
          ∷ (10, 16)
          ∷ (11, 17)
          ∷ []))
      0

abbrev pub write_latency : ℕ → ℕ → ℕ
write_latency ratio m =
    get_or
      (lookup (m % 16) (
        if ratio == 2
        then (0, 4) ∷ (1, 4) ∷ (2, 6) ∷ (3, 8) ∷ (4, 8) ∷ (5, 10) ∷ []
        else (0, 2)
          ∷ (1, 2)
          ∷ (2, 3)
          ∷ (3, 4)
          ∷ (4, 4)
          ∷ (5, 5)
          ∷ (6, 6)
          ∷ (7, 6)
          ∷ (8, 7)
          ∷ (9, 8)
          ∷ (10, 9)
          ∷ (11, 9)
          ∷ []))
      0

-- A test on the ranges.
all_of : (FreqRange → Bool) → List FreqRange → Bool
all_of p [] = true
all_of p (f ∷ fs) = p f && all_of p fs

range_test : ℕ → ℕ → ℕ → FreqRange → Bool
range_test ratio wl rl f =
    passes (λ m. (read_latency ratio m == f.rl) && (write_latency ratio m == f.wl)) (mr2 f)
    && passes (λ n. passes (λ m. n / 16 % 16 == m % 16) (mr2 f)) (mr1 f)

ranges_table : (ratio wl rl : ℕ) → all_of (range_test ratio wl rl) (frequency_ranges ratio) ≡ true
unfolding all_of range_test lookup mr1 mr2 reg
ranges_table ratio wl rl = elim (Bool-cases (ratio == 2)) [
  | inl t ↦
      let z = sym ((==_iff ratio 2).0 t) in
      subst (λ n. all_of (range_test n wl rl) (frequency_ranges n) ≡ true) z refl
  | inr f ↦ elim (Bool-cases (ratio == 4)) [
    | inl t ↦
        let z = sym ((==_iff ratio 4).0 t) in
        subst (λ n. all_of (range_test n wl rl) (frequency_ranges n) ≡ true) z refl
    | inr g ↦ rw (f, g)
  ]
]

-- The range found has the latencies asked for, and passes what all ranges pass.
record Found (p : FreqRange → Bool) (wl rl : ℕ) (f : FreqRange) : Type 0 where
  at_wl : f.wl ≡ wl
  at_rl : f.rl ≡ rl
  tested : p f ≡ true

get_frange-Found :
    (p : FreqRange → Bool) (wl rl : ℕ) (fs : List FreqRange) (f : FreqRange)
    → all_of p fs ≡ true
    → get_frange wl rl fs ≡ some f
    → Found p wl rl f
unfolding all_of get_frange
get_frange-Found p wl rl [] f a e = cc
get_frange-Found p wl rl (g ∷ fs) f a e =
    let parts = &&-parts (p g) _ a in
    elim (Bool-cases ((g.wl == wl) && (g.rl == rl))) [
      | inl t ↦
          let here = &&-parts (g.wl == wl) _ t in
          let same : some g ≡ some f = rw t at e in
          subst (Found p wl rl) (some_inj same) (record {
            at_wl = (==_iff g.wl wl).0 here.0;
            at_rl = (==_iff g.rl rl).0 here.1;
            tested = parts.0;
          })
      | inr n ↦ get_frange-Found p wl rl fs f parts.1 (rw n at e)
    ]

vref_table : below 128 (λ c. passes (λ m. m % 128 == c) (vref_of c)) ≡ true
unfolding below vref_of reg
vref_table = refl

get_vref_lem : (v c : ℕ) → get_vref v ≡ some c → (c ≡ v - 20) × (30 ≤ v) × (v ≤ 147)
unfolding get_vref
get_vref_lem v c e = (ground arith, ground arith, ground arith)

vref-reads : (v m : ℕ) → mr_vref v ≡ some m → m % 128 + 20 ≡ v
unfolding mr_vref
vref-reads v m e =
    let (c, q, q1) = >>=-eq-some (get_vref v) _ e in
    let known : (c ≡ v - 20) × (30 ≤ v) × (v ≤ 147) = get_vref_lem v c q in
    let t = passes-some _ _ m (below_lem 128 _ c vref_table (omega arith)) q1 in
    omega (arith, (==_iff (m % 128) c).0 t)

-- The registers that the sequence leaves in the DRAM.
pub record Programmed (s : Settings) (r : Init) : Type 0 where
  pub reg_1 : ℕ
  pub reg_2 : ℕ
  pub reg_12 : ℕ
  pub reg_14 : ℕ
  pub loaded_1 : loaded 1 r.sequence ≡ some reg_1
  pub loaded_2 : loaded 2 r.sequence ≡ some reg_2
  pub loaded_12 : loaded 12 r.sequence ≡ some reg_12
  pub loaded_14 : loaded 14 r.sequence ≡ some reg_14
  pub reads_cl : read_latency s.wck_ck_ratio reg_2 ≡ s.cl
  pub reads_cwl : write_latency s.wck_ck_ratio reg_2 ≡ s.cwl
  pub same_range : reg_1 / 16 % 16 ≡ reg_2 % 16
  pub reg_3 : ℕ
  pub reg_18 : ℕ
  pub loaded_3 : loaded 3 r.sequence ≡ some reg_3
  pub loaded_18 : loaded 18 r.sequence ≡ some reg_18
  pub set_a : reg_3 / 2 ^ 5 % 2 ≡ 0
  pub ratio_bit : (if reg_18 / 2 ^ 7 % 2 == 0 then 4 else 2) ≡ s.wck_ck_ratio
  pub reads_vref_ca : reg_12 % 128 + 20 ≡ get_or s.vref_ca 68
  pub reads_vref_dq : reg_14 % 128 + 20 ≡ get_or s.vref_dq 68
  pub reported_1 : lookup 1 r.mr ≡ some reg_1
  pub reported_2 : lookup 2 r.mr ≡ some reg_2
  pub reported_12 : lookup 12 r.mr ≡ some reg_12
  pub reported_14 : lookup 14 r.mr ≡ some reg_14

pub record Low (s : Settings) (mr : Table) : Type 0 where
  pub m1 : ℕ
  pub m2 : ℕ
  pub m3 : ℕ
  pub m10 : ℕ
  pub m11 : ℕ
  pub reads_cl : read_latency s.wck_ck_ratio m2 ≡ s.cl
  pub reads_cwl : write_latency s.wck_ck_ratio m2 ≡ s.cwl
  pub same_range : m1 / 16 % 16 ≡ m2 % 16
  pub set_a : m3 / 2 ^ 5 % 2 ≡ 0
  pub built : (1, m1) ∷ (2, m2) ∷ (3, m3) ∷ (10, m10) ∷ (11, m11) ∷ [] ≡ mr

pub low_registers-Low : (s : Settings) (mr : Table) → low_registers s ≡ some mr → Low s mr
unfolding low_registers range_test
low_registers-Low s mr e =
    let (f, q, e0) = >>=-eq-some (get_frange s.cwl s.cl (frequency_ranges s.wck_ck_ratio)) _ e in
    let (m1, q1, e1) = >>=-eq-some (mr1 f) _ e0 in
    let (m2, q2, e2) = >>=-eq-some (mr2 f) _ e1 in
    let (m3, q3, e3) = >>=-eq-some (mr3 (get_or s.pull_down_drive_strength (Odt.rzq 2))) _ e2 in
    let (m10, q10, e10) = >>=-eq-some mr10 _ e3 in
    let (m11, q11, e11) =
      >>=-eq-some (mr11 (get_or s.dq_odt (Odt.rzq 2)) (get_or s.dq_odt (Odt.rzq 2))) _ e10 in
    let found =
      get_frange-Found (range_test s.wck_ck_ratio s.cwl s.cl) s.cwl s.cl _ f
        (ranges_table s.wck_ck_ratio s.cwl s.cl) q in
    let tests = &&-parts _ _ found.tested in
    let latencies = &&-parts _ _ (passes-some _ _ m2 tests.0 q2) in
    record {
      m1 = m1;
      m2 = m2;
      m3 = m3;
      m10 = m10;
      m11 = m11;
      reads_cl = (==_iff _ _).0 latencies.0 ∙ found.at_rl;
      reads_cwl = (==_iff _ _).0 latencies.1 ∙ found.at_wl;
      same_range = (==_iff _ _).0 (passes-some _ _ m2 (passes-some _ _ m1 tests.1 q1) q2);
      set_a = set_a_lem _ m3 q3;
      built = some_inj e11;
    }

pub record High (s : Settings) (mr : Table) : Type 0 where
  pub m12 : ℕ
  pub m14 : ℕ
  pub m15 : ℕ
  pub m17 : ℕ
  pub m18 : ℕ
  pub m20 : ℕ
  pub m28 : ℕ
  pub reads_vref_ca : m12 % 128 + 20 ≡ get_or s.vref_ca 68
  pub reads_vref_dq : m14 % 128 + 20 ≡ get_or s.vref_dq 68
  pub ratio_bit : (if m18 / 2 ^ 7 % 2 == 0 then 4 else 2) ≡ s.wck_ck_ratio
  pub built :
      (12, m12)
        ∷ (13, 0)
        ∷ (14, m14)
        ∷ (15, m15)
        ∷ (17, m17)
        ∷ (18, m18)
        ∷ (20, m20)
        ∷ (22, 0)
        ∷ (28, m28)
        ∷ []
      ≡ mr

pub high_registers-High : (s : Settings) (mr : Table) → high_registers s ≡ some mr → High s mr
unfolding high_registers
high_registers-High s mr e =
    let (m12, q12, e12) = >>=-eq-some (mr_vref (get_or s.vref_ca 68)) _ e in
    let (m14, q14, e14) = >>=-eq-some (mr_vref (get_or s.vref_dq 68)) _ e12 in
    let (m15, q15, e15) = >>=-eq-some (get_vref (get_or s.vref_dq 68)) _ e14 in
    let (m17, q17, e17) = >>=-eq-some (mr17 (get_or s.soc_odt Odt.disable)) _ e15 in
    let (m18, q18, e18) = >>=-eq-some (mr18 (get_or s.wck_odt Odt.disable) s.wck_ck_ratio) _ e17 in
    let (m20, q20, e20) = >>=-eq-some mr20 _ e18 in
    let (m28, q28, e28) = >>=-eq-some mr28 _ e20 in
    record {
      m12 = m12;
      m14 = m14;
      m15 = m15;
      m17 = m17;
      m18 = m18;
      m20 = m20;
      m28 = m28;
      reads_vref_ca = vref-reads _ m12 q12;
      reads_vref_dq = vref-reads _ m14 q14;
      ratio_bit = ratio_lem _ s.wck_ck_ratio m18 q18;
      built = some_inj e28;
    }

-- The steps of a table that `cmds_of` accepts.
pub cmds_of-steps_of :
    (mr : Table) (steps : List Step) → cmds_of mr ≡ some steps → steps_of mr ≡ steps
unfolding cmds_of cmd_mr
cmds_of-steps_of [] steps e = some_inj e
cmds_of-steps_of ((ma, op) ∷ mr) steps e =
    let (step, q0, e1) = >>=-eq-some (cmd_mr ma op) _ e in
    let (rest, q1, e2) = >>=-eq-some (cmds_of mr) _ e1 in
    let s0 : at op ma mode_register 200 ≡ step = ground arith in
    ap (λ x. x ∷ steps_of mr) s0 ∙ ap (λ xs. step ∷ xs) (cmds_of-steps_of mr rest q1) ∙ some_inj e2

pub cmds_of-Fits : (mr : Table) (steps : List Step) → cmds_of mr ≡ some steps → Fits 7 mr
unfolding cmds_of cmd_mr
cmds_of-Fits [] steps e = tt
cmds_of-Fits ((ma, op) ∷ mr) steps e =
    let (step, q0, e1) = >>=-eq-some (cmd_mr ma op) _ e in
    let (rest, q1, e2) = >>=-eq-some (cmds_of mr) _ e1 in
    let small : (ma < 2 ^ 7) × (op < 2 ^ 8) = ground arith in
    (small.0, small.1, cmds_of-Fits mr rest q1)

-- What a sequence around the tables' steps leaves.
tables-Programmed :
    (s : Settings) (l h : Table)
    → Low s l
    → High s h
    → Programmed s (sequence_with (steps_of (l ++ h)) (l ++ h))
unfolding loaded lookup
tables-Programmed s l h a b =
    let low : Table = (1, a.m1) ∷ (2, a.m2) ∷ (3, a.m3) ∷ (10, a.m10) ∷ (11, a.m11) ∷ [] in
    subst (λ t. Programmed s (sequence_with (steps_of (t ++ h)) (t ++ h))) a.built
      (subst (λ t. Programmed s (sequence_with (steps_of (low ++ t)) (low ++ t))) b.built
        (record {
          reg_1 = a.m1;
          reg_2 = a.m2;
          reg_12 = b.m12;
          reg_14 = b.m14;
          loaded_1 = refl;
          loaded_2 = refl;
          loaded_12 = refl;
          loaded_14 = refl;
          reads_cl = a.reads_cl;
          reads_cwl = a.reads_cwl;
          same_range = a.same_range;
          reg_3 = a.m3;
          reg_18 = b.m18;
          loaded_3 = refl;
          loaded_18 = refl;
          set_a = a.set_a;
          ratio_bit = b.ratio_bit;
          reads_vref_ca = b.reads_vref_ca;
          reads_vref_dq = b.reads_vref_dq;
          reported_1 = refl;
          reported_2 = refl;
          reported_12 = refl;
          reported_14 = refl;
        }))

-- When the sequence is built, the DRAM reads the settings' read and write latencies, for the ratio
-- of its clocks, from the frequency range in the MR2 that it ends with, MR1 selects the same range,
-- and MR12 and MR14 read back as the reference voltages asked for; the dictionary returned has
-- these four registers as they are loaded.
pub get_lpddr5-Programmed :
    (s : Settings) (r : Init) → get_lpddr5_phy_init_sequence s ≡ some r → Programmed s r
unfolding get_lpddr5_phy_init_sequence
get_lpddr5-Programmed s r e =
    let (l, ql, e0) = >>=-eq-some (low_registers s) _ e in
    let (h, qh, e1) = >>=-eq-some (high_registers s) _ e0 in
    let (steps, qs, e2) = >>=-eq-some (cmds_of (l ++ h)) _ e1 in
    let same : sequence_with (steps_of (l ++ h)) (l ++ h) ≡ r =
      ap (λ xs. sequence_with xs (l ++ h)) (cmds_of-steps_of (l ++ h) steps qs) ∙ some_inj e2 in
    subst (Programmed s) same
      (tables-Programmed s l h (low_registers-Low s l ql) (high_registers-High s h qh))
