-- ===== src/Core/Multiplexer/Steerer/Once.antt =====
-- Each command that the multiplexer accepts stands whole on one phase of the DFI.
use native.Mathlib.Nat.{mod-eq_of_lt, mod-lt, add-mod_right, div-add-mod, mul_comm}
use litedram.Base.{
  ℕ, zero, suc, ◌+◌, ◌-◌, ◌*◌, ◌/◌, ◌%◌, ◌^◌, ◌≤◌, ◌<◌, ◌≡◌, ◌≢◌, refl, sym, ap, ◌∙◌, arith, Bool,
  true, false, not, ◌&&◌, ◌==◌, ==_iff, Bool-cases, ◌⊎◌, inl, inr, if◌then◌else◌, two_pow-pos,
}
use litedram.Core.Multiplexer.{Settings, Inputs, Multiplexer, State, Steer, sel}
use litedram.Core.Multiplexer.Steerer.{
  Command, Sources, Phase, Ranks, cs_n, bank, phase_step, sources, dfi, valid_and,
}

-- A phase without a command, and one with all that the DRAM reads of a command: the strobes, the
-- address and the data enables are the command's, and the low bits of its bank are on the phase while
-- the rest of them is the rank whose chip select alone is low.
abbrev pub Idle : Phase → Type 0
Idle p =
    (p.cas_n ≡ true)
    × (p.ras_n ≡ true)
    × (p.we_n ≡ true)
    × (p.rddata_en ≡ false)
    × (p.wrdata_en ≡ false)

abbrev pub Selects : Ranks → (ba bank cs_n : ℕ) → Type 0
Selects r ba bank cs_n =
    (rank : ℕ) × (ba ≡ rank * 2 ^ (r.ba_bits - r.rankbits) + bank)
    × (bank < 2 ^ (r.ba_bits - r.rankbits))
    × (cs_n ≡ 2 ^ 2 ^ r.rankbits - 1 - 2 ^ rank)

abbrev pub Carries : Ranks → Command → Phase → Type 0
Carries r c p =
    Selects r c.ba p.bank p.cs_n
    × (p.address ≡ c.a)
    × (not p.cas_n ≡ c.cas)
    × (not p.ras_n ≡ c.ras)
    × (not p.we_n ≡ c.we)
    × (p.rddata_en ≡ c.is_read)
    × (p.wrdata_en ≡ c.is_write)

abbrev pub Delivered : (accepted : Bool) → Ranks → Command → Phase → Type 0
Delivered true r c p = Carries r c p
Delivered false r c p = Idle p

-- The phase of the column commands, and the one of the others before it.
abbrev pub column_phase : Settings → State → ℕ
column_phase g State.write = g.wrphase
column_phase g _ = g.rdphase

abbrev pub row_phase : Settings → State → ℕ
row_phase g f = (column_phase g f + g.nphases - 1) % g.nphases

-- What a phase shows, by whether it is the one or the other of the two.
abbrev pub Shows : (is_row is_column : Bool) → Ranks → Sources → Phase → Type 0
Shows true is_column r c p = Delivered (c.cmd.valid && c.cmd.ready) r c.cmd p
Shows false true r c p = Delivered (c.req.valid && c.req.ready) r c.req p
Shows false false r c p = Idle p

-- The phase before is another one.
pred_other : (n phase : ℕ) → 2 ≤ n → phase < n → (phase + n - 1) % n ≢ phase
pred_other n zero two l e = omega (arith, e, mod-eq_of_lt {n = 0 + n - 1} {m = n} (omega arith))
pred_other n (suc phase) two l e = omega (
  arith,
  e,
  add-mod_right phase n,
  mod-eq_of_lt {n = phase} {m = n} (omega arith),
  ap (λ (k : ℕ). k % n) (let q : suc phase + n - 1 ≡ phase + n = omega arith in q),
)

twice_not : (b : Bool) → not (not b) ≡ b
twice_not true = refl
twice_not false = refl

no_refresh : (b : Bool) → (b && false) ≡ false
no_refresh true = refl
no_refresh false = refl

module _ (rank_decoder : ℕ → ℕ) (law : (k : ℕ) → rank_decoder k ≡ 2 ^ k) (r : Ranks) where
  -- Either of the two sources, as the steerer puts its bank on a phase.
  chip_selected :
      (ba cs : ℕ)
      → ba < 2 ^ r.ba_bits
      → cs ≡ (
          if r.rankbits == 0
          then 0
          else 2 ^ 2 ^ r.rankbits - 1 - rank_decoder (ba / 2 ^ (r.ba_bits - r.rankbits)))
      → Selects r ba (bank r ba) cs
  unfolding bank
  chip_selected ba cs l e =
      let w = r.ba_bits - r.rankbits in
      elim (Bool-cases (r.rankbits == 0)) [
        | inl t ↦
            let z : r.rankbits ≡ 0 = (==_iff r.rankbits 0).0 t in
            let same : 2 ^ w ≡ 2 ^ r.ba_bits =
              ap (λ (k : ℕ). 2 ^ (r.ba_bits - k)) z
              ∙ ap (λ (k : ℕ). 2 ^ k) (let q : r.ba_bits - 0 ≡ r.ba_bits = omega arith in q) in
            let zero_cs : cs ≡ 0 =
              e ∙ ap (λ b. if b then 0 else 2 ^ 2 ^ r.rankbits - 1 - rank_decoder (ba / 2 ^ w)) t in
            let only : 2 ^ 2 ^ r.rankbits - 1 - 2 ^ 0 ≡ 0 =
              ap (λ (k : ℕ). 2 ^ 2 ^ k - 1 - 2 ^ 0) z in
            (0, rw t (omega arith), rw t (omega (arith, same, l)), zero_cs ∙ sym only)
        | inr f ↦ (
          ba / 2 ^ w,
          rw f (omega (arith, div-add-mod ba (2 ^ w), mul_comm (2 ^ w) (ba / 2 ^ w))),
          rw f (mod-lt ba (two_pow-pos w)),
          e
              ∙ ap (λ b. if b then 0 else 2 ^ 2 ^ r.rankbits - 1 - rank_decoder (ba / 2 ^ w)) f
              ∙ ap (λ (k : ℕ). 2 ^ 2 ^ r.rankbits - 1 - k) (law (ba / 2 ^ w)),
        )
      ]

  Delivered-cmd :
      (c : Sources) (i : ℕ)
      → c.cmd.ba < 2 ^ r.ba_bits
      → Delivered (c.cmd.valid && c.cmd.ready) r c.cmd (phase_step rank_decoder r c i Steer.cmd)
  unfolding phase_step valid_and cs_n
  Delivered-cmd c i l = elim (Bool-cases (c.cmd.valid && c.cmd.ready)) [
    | inl e ↦
        rw (e, no_refresh (i == 0))
          (chip_selected c.cmd.ba _ l refl, refl, twice_not _, twice_not _, twice_not _, refl, refl)
    | inr e ↦ rw e (refl, refl, refl, refl, refl)
  ]

  Delivered-req :
      (c : Sources) (i : ℕ)
      → c.req.ba < 2 ^ r.ba_bits
      → Delivered (c.req.valid && c.req.ready) r c.req (phase_step rank_decoder r c i Steer.req)
  unfolding phase_step valid_and cs_n
  Delivered-req c i l = elim (Bool-cases (c.req.valid && c.req.ready)) [
    | inl e ↦
        rw (e, no_refresh (i == 0))
          (chip_selected c.req.ba _ l refl, refl, twice_not _, twice_not _, twice_not _, refl, refl)
    | inr e ↦ rw e (refl, refl, refl, refl, refl)
  ]

  steered :
      (c : Sources) (i : ℕ) (is_row is_column : Bool)
      → c.cmd.ba < 2 ^ r.ba_bits
      → c.req.ba < 2 ^ r.ba_bits
      → Shows is_row is_column r c (
          phase_step rank_decoder r c i
            (if is_row then Steer.cmd else if is_column then Steer.req else Steer.nop))
  unfolding phase_step valid_and
  steered c i true is_column l m = Delivered-cmd c i l
  steered c i false true l m = Delivered-req c i m
  steered c i false false l m = (refl, refl, refl, refl, refl)

  steered_in :
      (g : Settings) (f : State) (c : Sources) (n : ℕ)
      → 2 ≤ g.nphases
      → g.rdphase < g.nphases
      → g.wrphase < g.nphases
      → (f ≡ State.read) ⊎ (f ≡ State.write)
      → c.cmd.ba < 2 ^ r.ba_bits
      → c.req.ba < 2 ^ r.ba_bits
      → (row_phase g f < g.nphases)
        × (column_phase g f < g.nphases)
        × (row_phase g f ≢ column_phase g f)
        × Shows
            (n == row_phase g f)
            (n == column_phase g f)
            r
            c
            (phase_step rank_decoder r c n (sel g f n))
  unfolding sel
  steered_in g f c n two rd wr reads l m = elim reads [
    | inl e ↦ rw e (
      mod-lt _ (omega arith),
      rd,
      pred_other g.nphases g.rdphase two rd,
      steered c n (n == (g.rdphase + g.nphases - 1) % g.nphases) (n == g.rdphase) l m,
    )
    | inr e ↦ rw e (
      mod-lt _ (omega arith),
      wr,
      pred_other g.nphases g.wrphase two wr,
      steered c n (n == (g.wrphase + g.nphases - 1) % g.nphases) (n == g.wrphase) l m,
    )
  ]

  -- With several phases, among which those of the reads and of the writes are, in the states of
  -- reading and writing: after a cycle the command that `choose_req` had accepted, if any, stands on
  -- the phase of the reads or of the writes, with its strobes, its address, its data enables, the low
  -- bits of its bank, and the chip select of the rank that the rest of its bank is; what `choose_cmd`
  -- had accepted stands so on the phase before, which is another one; and all other phases, or these
  -- where nothing was accepted, have no command. The banks have the width of their number, and the
  -- rank decoder gives each rank its own bit.
  pub commands_once :
      (g : Settings) (i : Inputs) (s : Multiplexer) (refresh : Command) (n : ℕ)
      → 2 ≤ g.nphases
      → g.rdphase < g.nphases
      → g.wrphase < g.nphases
      → (s.fsm ≡ State.read) ⊎ (s.fsm ≡ State.write)
      → (sources g i s refresh).cmd.ba < 2 ^ r.ba_bits
      → (sources g i s refresh).req.ba < 2 ^ r.ba_bits
      → (row_phase g s.fsm < g.nphases)
        × (column_phase g s.fsm < g.nphases)
        × (row_phase g s.fsm ≢ column_phase g s.fsm)
        × Shows
            (n == row_phase g s.fsm)
            (n == column_phase g s.fsm)
            r
            (sources g i s refresh)
            (dfi rank_decoder g r i s refresh n)
  unfolding dfi
  commands_once g i s refresh n = steered_in g s.fsm (sources g i s refresh) n
