-- ===== src/Phy/Lpddr5/Bringup/Latency.antt =====
-- The latencies of the simulated LPDDR5 chip after the initialization sequence.
use mathlib.Core.Path.{ap₂, subst}
use litedram.Base.{
  ℕ, ◌/◌, ◌%◌, ◌^◌, ◌<◌, ◌≡◌, refl, sym, ap, ◌∙◌, arith, Bool, true, false, some, List, [], ◌∷◌,
  ◌==◌, if◌then◌else◌, nth, ==_iff, Bool-cases, inl, inr,
}
use litedram.Init.Electrical.{get_or}
use litedram.Init.Table.{Table, lookup, below, below_lem}
use litedram.Init.Sequence.{Init}
use litedram.Init.Lpddr5.{Settings, get_lpddr5_phy_init_sequence}
use litedram.Init.Lpddr5.Mode.{read_latency, write_latency, get_lpddr5-Programmed}
use litedram.Phy.Lpddr5.Sim.{ckr, wl_table, rl_table, wl, rl}
use litedram.Phy.Lpddr5.Cycle.{InitState, Inputs, Sim}
use litedram.Phy.Lpddr5.Decoded.{View, Registers, at_rest}
use litedram.Phy.Lpddr5.Decoded.Stream.{AllUndisturbed, pins_of, play, cycles, frames, play-unread}
use litedram.Phy.Lpddr5.Bringup.{sequence_phases, waiting}
use litedram.Phy.Lpddr5.Bringup.Sequence.{after_sequence, BroughtUp, get_lpddr5-BroughtUp}

-- A list and a table that agree below 16.
agree :
    (xs : List ℕ) (t : Table) (c : ℕ)
    → below 16 (λ k. nth 0 xs k == get_or (lookup k t) 0) ≡ true
    → c < 16
    → nth 0 xs c ≡ get_or (lookup c t) 0
agree xs t c h l = (==_iff _ _).0 (below_lem 16 _ c h l)

-- The tables of the sequence and of the simulator agree, for set A.
wl_table-write_latency :
    (ratio m : ℕ) → nth 0 (wl_table ratio 0) (m % 2 ^ 4) ≡ write_latency ratio m
unfolding wl_table below lookup
wl_table-write_latency ratio m = elim (Bool-cases (ratio == 2)) [
  | inl t ↦ rw t (
      agree (4 ∷ 4 ∷ 6 ∷ 8 ∷ 8 ∷ 10 ∷ [])
        ((0, 4) ∷ (1, 4) ∷ (2, 6) ∷ (3, 8) ∷ (4, 8) ∷ (5, 10) ∷ []) (m % 16) refl (omega arith))
  | inr f ↦ rw f (
      agree (2 ∷ 2 ∷ 3 ∷ 4 ∷ 4 ∷ 5 ∷ 6 ∷ 6 ∷ 7 ∷ 8 ∷ 9 ∷ 9 ∷ [])
        ((0, 2)
          ∷ (1, 2)
          ∷ (2, 3)
          ∷ (3, 4)
          ∷ (4, 4)
          ∷ (5, 5)
          ∷ (6, 6)
          ∷ (7, 6)
          ∷ (8, 7)
          ∷ (9, 8)
          ∷ (10, 9)
          ∷ (11, 9)
          ∷ [])
        (m % 16) refl (omega arith))
]

rl_table-read_latency : (ratio m : ℕ) → nth 0 (rl_table ratio 0) (m % 2 ^ 4) ≡ read_latency ratio m
unfolding rl_table below lookup
rl_table-read_latency ratio m = elim (Bool-cases (ratio == 2)) [
  | inl t ↦ rw t (
      agree (6 ∷ 8 ∷ 10 ∷ 12 ∷ 16 ∷ 18 ∷ [])
        ((0, 6) ∷ (1, 8) ∷ (2, 10) ∷ (3, 12) ∷ (4, 16) ∷ (5, 18) ∷ []) (m % 16) refl (omega arith))
  | inr f ↦ rw f (
      agree (3 ∷ 4 ∷ 5 ∷ 6 ∷ 8 ∷ 9 ∷ 10 ∷ 12 ∷ 13 ∷ 15 ∷ 16 ∷ 17 ∷ [])
        ((0, 3)
          ∷ (1, 4)
          ∷ (2, 5)
          ∷ (3, 6)
          ∷ (4, 8)
          ∷ (5, 9)
          ∷ (6, 10)
          ∷ (7, 12)
          ∷ (8, 13)
          ∷ (9, 15)
          ∷ (10, 16)
          ∷ (11, 17)
          ∷ [])
        (m % 16) refl (omega arith))
]

-- What a chip reads from registers that select set A, the ratio, and the entry of the tables.
latencies :
    (mr : ℕ → ℕ) (ratio m1 m2 m3 m18 : ℕ)
    → mr 1 ≡ m1
    → mr 2 ≡ m2
    → mr 3 ≡ m3
    → mr 18 ≡ m18
    → m1 / 16 % 16 ≡ m2 % 16
    → m3 / 2 ^ 5 % 2 ≡ 0
    → (if m18 / 2 ^ 7 % 2 == 0 then 4 else 2) ≡ ratio
    → (wl mr ≡ write_latency ratio m2) × (rl mr ≡ read_latency ratio m2)
unfolding wl rl ckr
latencies mr ratio m1 m2 m3 m18 e1 e2 e3 e18 same set_a bit =
    let r : ckr mr ≡ ratio = ap (λ (n : ℕ). if n / 2 ^ 7 % 2 == 0 then 4 else 2) e18 ∙ bit in
    let a : mr 3 / 2 ^ 5 % 2 ≡ 0 = ap (λ (n : ℕ). n / 2 ^ 5 % 2) e3 ∙ set_a in
    let w : mr 1 / 2 ^ 4 % 2 ^ 4 ≡ m2 % 2 ^ 4 = ap (λ (n : ℕ). n / 2 ^ 4 % 2 ^ 4) e1 ∙ same in
    let l : mr 2 % 2 ^ 4 ≡ m2 % 2 ^ 4 = ap (λ (n : ℕ). n % 2 ^ 4) e2 in
    (
      ap₂ (λ xs k. nth 0 xs k) (ap₂ wl_table r a) w ∙ wl_table-write_latency ratio m2,
      ap₂ (λ xs k. nth 0 xs k) (ap₂ rl_table r a) l ∙ rl_table-read_latency ratio m2,
    )

-- Over any cycles in which no reset begins or ends, whether the timers are ready or not, and whose
-- pads show the sequence issued command by command, each followed by at least two phases without a
-- command: a simulated chip without `check_timings` that waits for its first NOP ends in normal
-- operation, its `CommandsSim` has logged no error and no warning, and the write and read latencies
-- that it then counts are those of the settings. What `ModeRegisters` logs on the way, of a value
-- that selects no latency before all registers are loaded, is not counted.
pub get_lpddr5-latencies :
    (g : Settings) (init : Init)
    → get_lpddr5_phy_init_sequence g ≡ some init
    → (m : Bool) (gap : ℕ) (h : List Inputs) (r : Registers) (v : View) → AllUndisturbed h
    → pins_of h ≡ frames m (sequence_phases gap init.sequence)
    → let s = play false h (waiting InitState.wait_nop (at_rest r v)) in
      (s.fsm ≡ InitState.normal)
      × (s.chip.log ≡ v.log)
      × (wl s.chip.device.mode_regs ≡ g.cwl)
      × (rl s.chip.device.mode_regs ≡ g.cl)
unfolding cycles frames sequence_phases
get_lpddr5-latencies g init built m gap h r v u pads =
    let p = get_lpddr5-Programmed g init built in
    let s = play false h (waiting InitState.wait_nop (at_rest r v)) in
    let same : s ≡ after_sequence false m gap init r v =
      play-unread h (waiting InitState.wait_nop (at_rest r v)) u
      ∙ ap (λ xs. cycles false xs (waiting InitState.wait_nop (at_rest r v))) pads in
    let b =
      subst (λ (t : Sim). BroughtUp init t v) (sym same)
        (get_lpddr5-BroughtUp g init built false m gap r v) in
    let l =
      latencies s.chip.device.mode_regs g.wck_ck_ratio p.reg_1 p.reg_2 p.reg_3 p.reg_18
        (b.2 1 ∙ ap (λ o. get_or o (v.device.mode_regs 1)) p.loaded_1)
        (b.2 2 ∙ ap (λ o. get_or o (v.device.mode_regs 2)) p.loaded_2)
        (b.2 3 ∙ ap (λ o. get_or o (v.device.mode_regs 3)) p.loaded_3)
        (b.2 18 ∙ ap (λ o. get_or o (v.device.mode_regs 18)) p.loaded_18) p.same_range p.set_a
        p.ratio_bit in
    (b.0, b.1, l.0 ∙ p.reads_cwl, l.1 ∙ p.reads_cl)
