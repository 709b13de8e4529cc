-- ===== src/Phy/Lpddr4/Sim.antt =====
-- `CommandsSim` of litedram/phy/lpddr4/sim.py: the simulated LPDDR4 chip's reading of CS and CA, its
-- banks and its mode registers. The pulses of the timers `PulseTiming` are inputs; the checks of the
-- pads `cke` and `reset_n` against tINIT1 to tINIT3, which only log, are left out, and so are the
-- messages of the levels info and debug.
use litedram.Base.{
  ℕ, Bool, false, not, ◌&&◌, ◌||◌, List, [], ◌∷◌, ◌++◌, ◌==◌, if◌then◌else◌, take, drop, nth,
}
use litedram.Phy.Wires.{bit_at, number, is}

-- Errors and warnings.
pub data Message : Type 0 where
  unexpected_command waiting_for_second refresh_with_active_banks : Message
  act_on_active_bank pre_on_inactive_bank invalid_mpc cas_on_inactive_bank : Message
  write_not_aligned dbi_not_supported data_mask_disabled fifo_overflow : Message
  only_mrw_expected zqc_start_expected zqc_latch_expected tzqcal_violated tzqlat_violated : Message

-- What is sent to the data simulator on a read or a write.
pub record Burst : Type 0 where
  pub we : Bool
  pub masked : Bool
  pub bank : ℕ
  pub row : ℕ
  pub col : ℕ

-- The mode registers and the banks.
pub record Device : Type 0 where
  pub mode_regs : ℕ → ℕ
  pub active_banks : ℕ → Bool
  pub active_rows : ℕ → ℕ

abbrev pub put {ℓ} : {A : Type ℓ} → (ℕ → A) → ℕ → A → ℕ → A
put f i a j = if j == i then a else f j

-- The FSM of `cmd_two_step`.
pub data Half : Type 0 where
  first second : Half

pub record MrwHandler : Type 0 where
  pub half : Half
  pub ma : List Bool
  pub op7 : Bool

pub record ActivateHandler : Type 0 where
  pub half : Half
  pub bank : List Bool
  pub row1 : List Bool

pub record CasHandler : Type 0 where
  pub half : Half
  pub cas1 : List Bool
  pub bank : List Bool
  pub col9 : Bool
  pub burst_len : Bool
  pub auto_precharge : Bool

-- The handlers with their registers, and the chip; all that is logged and sent, in order.
pub record Chip : Type 0 where
  pub mrw : MrwHandler
  pub act : ActivateHandler
  pub cas : CasHandler
  pub device : Device
  pub log : List Message
  pub bursts : List Burst

-- CA at the first and the second edge of a small command, with the data FIFO's `ready`.
pub record Edges : Type 0 where
  pub cs_high : List Bool
  pub cs_low : List Bool
  pub sink_ready : Bool

abbrev cs_high_5 : Edges → List Bool
cs_high_5 e = take 5 e.cs_high

-- `cs_high[5]`.
abbrev pub top : Edges → Bool
top e = nth false e.cs_high 5

-- A message is logged on a condition; the log has the latest cycle first.
abbrev pub note : Bool → Message → List Message → List Message
note b m log = if b then m ∷ log else log

-- `cmd_two_step`: whether the command is matched, the next state, and the complaint on a second part
-- that does not fit.
abbrev pub two_step : Half → Bool → Bool → Bool
two_step Half.first cond1 cond2 = cond1
two_step Half.second cond1 cond2 = cond2

abbrev pub next_half : Half → Bool → Half
next_half Half.first cond1 = if cond1 then Half.second else Half.first
next_half Half.second cond1 = Half.first

abbrev pub second_done : Half → Bool → Bool
second_done Half.first cond2 = false
second_done Half.second cond2 = cond2

abbrev pub first_done : Half → Bool → Bool
first_done Half.first cond1 = cond1
first_done Half.second cond1 = false

abbrev pub waiting : Half → Bool → List Message → List Message
waiting Half.first cond2 log = log
waiting Half.second cond2 log = note (not cond2) Message.waiting_for_second log

unfoldable pub mrw_cond1 : Edges → Bool
mrw_cond1 e = is (cs_high_5 e) 0b00110

unfoldable pub mrw_cond2 : Edges → Bool
mrw_cond2 e = is (cs_high_5 e) 0b10110

unfoldable pub mrw_next : Edges → MrwHandler → MrwHandler
unfolding mrw_cond1
mrw_next e h =
    let body1 = first_done h.half (mrw_cond1 e) in
    record {
      half = next_half h.half (mrw_cond1 e);
      ma = if body1 then e.cs_low else h.ma;
      op7 = if body1 then top e else h.op7;
    }

-- `Cat(cs_low, cs_high[5], op7)`.
unfoldable pub mrw_op : Edges → MrwHandler → ℕ
mrw_op e h = number (e.cs_low ++ (top e ∷ h.op7 ∷ []))

unfoldable pub act_cond1 : Edges → Bool
act_cond1 e = is (take 2 e.cs_high) 0b01

unfoldable pub act_cond2 : Edges → Bool
act_cond2 e = is (take 2 e.cs_high) 0b11

unfoldable pub act_next : Edges → ActivateHandler → ActivateHandler
unfolding act_cond1
act_next e h =
    let body1 = first_done h.half (act_cond1 e) in
    record {
      half = next_half h.half (act_cond1 e);
      bank = if body1 then take 3 e.cs_low else h.bank;
      row1 =
          if body1
          then take 2 (drop 4 e.cs_low) ++ (take 4 (drop 2 e.cs_high) ++ take 1 (drop 3 e.cs_low))
          else h.row1;
    }

-- `Cat(row2, row1)`, with `row2` as `Cat(cs_low, cs_high[2:])`.
unfoldable pub act_row : Edges → ActivateHandler → ℕ
act_row e h = number ((e.cs_low ++ drop 2 e.cs_high) ++ h.row1)

unfoldable pub cas_cond1 : Edges → Bool
cas_cond1 e = is (cs_high_5 e) 0b00100 || (is (cs_high_5 e) 0b01100 || is (cs_high_5 e) 0b00010)

unfoldable pub cas_cond2 : Edges → Bool
cas_cond2 e = is (cs_high_5 e) 0b10010

unfoldable pub cas_next : Edges → CasHandler → CasHandler
unfolding cas_cond1
cas_next e h =
    let body1 = first_done h.half (cas_cond1 e) in
    record {
      half = next_half h.half (cas_cond1 e);
      cas1 = if body1 then cs_high_5 e else h.cas1;
      bank = if body1 then take 3 e.cs_low else h.bank;
      col9 = if body1 then nth false e.cs_low 4 else h.col9;
      burst_len = if body1 then top e else h.burst_len;
      auto_precharge = if body1 then nth false e.cs_low 5 else h.auto_precharge;
    }

-- `Cat(Replicate(0, 2), cs_low, cs_high[5], col9)`.
unfoldable pub cas_col : Edges → CasHandler → List Bool
cas_col e h = false ∷ false ∷ (e.cs_low ++ (top e ∷ h.col9 ∷ []))

unfoldable pub cas_burst : Edges → CasHandler → Device → Burst
unfolding cas_col
cas_burst e h d = record {
  we = not (is h.cas1 0b00010);
  masked = is h.cas1 0b01100;
  bank = number h.bank;
  row = d.active_rows (number h.bank);
  col = number (cas_col e h);
}

unfoldable pub cas_messages : Edges → CasHandler → Device → List Message → List Message
unfolding cas_col
cas_messages e h d log = note (not (d.active_banks (number h.bank))) Message.cas_on_inactive_bank (
    note (not (is h.cas1 0b00010) && not (is (take 4 (cas_col e h)) 0)) Message.write_not_aligned (
      note (bit_at (d.mode_regs 3) 6 || bit_at (d.mode_regs 3) 7) Message.dbi_not_supported (
        note (is h.cas1 0b01100 && bit_at (d.mode_regs 13) 5) Message.data_mask_disabled
          (note (not e.sink_ready) Message.fifo_overflow log))))

unfoldable pub refresh_cond : Edges → Bool
refresh_cond e = is (cs_high_5 e) 0b01000

-- `reduce(or_, active_banks)`.
unfoldable pub some_active : (ℕ → Bool) → Bool
some_active b = b 0 || (b 1 || (b 2 || (b 3 || (b 4 || (b 5 || (b 6 || b 7))))))

unfoldable pub precharge_cond : Edges → Bool
precharge_cond e = is (cs_high_5 e) 0b10000

abbrev pub pre_bank : Edges → ℕ
pre_bank e = number (take 3 e.cs_low)

unfoldable pub mpc_cond : Edges → Bool
mpc_cond e = is (cs_high_5 e) 0b00000

-- `Cat(cs_low, cs_high[5])`, and 0 where the command is another.
unfoldable pub mpc_op : Edges → ℕ
unfolding mpc_cond
mpc_op e = if mpc_cond e then number (e.cs_low ++ (top e ∷ [])) else 0
