-- ===== src/Phy/Lpddr5/Sim.antt =====
-- The handlers of `CommandsSim` and the `ModeRegisters` of litedram/phy/lpddr5/sim.py: the simulated
-- LPDDR5 chip's reading of CA, its banks and its mode registers. Messages of the levels info and debug
-- are left out, and so are the warnings of `ModeRegisters` on a value that selects no latency: the
-- latency is 0 then.
use litedram.Base.{
  ℕ, ◌+◌, ◌-◌, ◌/◌, ◌%◌, ◌^◌, min, Bool, false, not, ◌&&◌, ◌||◌, List, [], ◌∷◌, ◌++◌, ◌==◌, ltb,
  if◌then◌else◌, take, drop, nth,
}
use litedram.Phy.Wires.{bit_value, number, is}
use litedram.Phy.PulseTiming.{PulseTiming}
use litedram.Phy.Lpddr4.Sim.{Device, put, Half}

-- Errors and warnings.
pub data Message : Type 0 where
  unexpected_command waiting_for_second timeout act_on_active_bank pre_on_inactive_bank : Message
  refresh_with_active_banks unsupported_mpc more_than_one_sync unsupported_cas wl_too_short :
      Message
  rl_too_short cas_on_inactive_bank bank_organization commands_disabled only_mrw_expected : Message
  zqc_latch_expected tzqcal_violated tinit1_violated tinit3_violated tinit4_violated : Message
  tinit5_violated waiting_for_nop : Message

-- `CMD_INFO_LAYOUT`, with the latency that the timer of the data is started with.
pub record Burst : Type 0 where
  pub we : Bool
  pub masked : Bool
  pub burst32 : Bool
  pub bank : ℕ
  pub row : ℕ
  pub col : ℕ
  pub latency : ℕ

pub record MrwHandler : Type 0 where
  pub half : Half
  pub ma : List Bool

-- `timer` is `next_cmd_timer`.
pub record ActivateHandler : Type 0 where
  pub half : Half
  pub bank : List Bool
  pub row1 : List Bool
  pub row2 : List Bool
  pub timer : PulseTiming

pub record Chip : Type 0 where
  pub mrw : MrwHandler
  pub act : ActivateHandler
  pub device : Device
  pub log : List Message
  pub bursts : List Burst

-- A command: CA at the rising and the falling edge of CK.
pub record Edges : Type 0 where
  pub ca_p : List Bool
  pub ca_n : List Bool

-- The log has the latest cycle first.
abbrev pub note : Bool → Message → List Message → List Message
note b m log = if b then m ∷ log else log

-- A ratio of 4 or 2.
unfoldable pub ckr : (ℕ → ℕ) → ℕ
ckr mr = if mr 18 / 2 ^ 7 % 2 == 0 then 4 else 2

unfoldable pub wl_table : (ratio set_ab : ℕ) → List ℕ
wl_table ratio set_ab =
    if ratio == 2
    then (if set_ab == 0 then 4 ∷ 4 ∷ 6 ∷ 8 ∷ 8 ∷ 10 ∷ [] else 4 ∷ 6 ∷ 8 ∷ 10 ∷ 14 ∷ 16 ∷ [])
    else if set_ab == 0
    then 2 ∷ 2 ∷ 3 ∷ 4 ∷ 4 ∷ 5 ∷ 6 ∷ 6 ∷ 7 ∷ 8 ∷ 9 ∷ 9 ∷ []
    else 2 ∷ 3 ∷ 4 ∷ 5 ∷ 7 ∷ 8 ∷ 9 ∷ 11 ∷ 12 ∷ 14 ∷ 15 ∷ 16 ∷ []

-- The third set is never selected: `set_ab` is one bit of MR3.
unfoldable pub rl_table : (ratio set_ab : ℕ) → List ℕ
rl_table ratio set_ab =
    if ratio == 2
    then (if set_ab == 0 then 6 ∷ 8 ∷ 10 ∷ 12 ∷ 16 ∷ 18 ∷ [] else 6 ∷ 8 ∷ 10 ∷ 14 ∷ 16 ∷ 20 ∷ [])
    else if set_ab == 0
    then 3 ∷ 4 ∷ 5 ∷ 6 ∷ 8 ∷ 9 ∷ 10 ∷ 12 ∷ 13 ∷ 15 ∷ 16 ∷ 17 ∷ []
    else 3 ∷ 4 ∷ 5 ∷ 7 ∷ 8 ∷ 10 ∷ 11 ∷ 13 ∷ 14 ∷ 16 ∷ 17 ∷ 18 ∷ []

unfoldable pub wl : (ℕ → ℕ) → ℕ
unfolding ckr wl_table
wl mr = nth 0 (wl_table (ckr mr) (mr 3 / 2 ^ 5 % 2)) (mr 1 / 2 ^ 4 % 2 ^ 4)

unfoldable pub rl : (ℕ → ℕ) → ℕ
unfolding ckr rl_table
rl mr = nth 0 (rl_table (ckr mr) (mr 3 / 2 ^ 5 % 2)) (mr 2 % 2 ^ 4)

abbrev ca_p_6 : Edges → List Bool
ca_p_6 e = take 6 e.ca_p

-- `ca_n[6]`.
abbrev pub last_n : Edges → Bool
last_n e = nth false e.ca_n 6

unfoldable pub mrw_cond1 : Edges → Bool
mrw_cond1 e = is e.ca_p 0b1011000

unfoldable pub mrw_cond2 : Edges → Bool
mrw_cond2 e = is (ca_p_6 e) 0b001000

-- `Cat(ca_n, ca_p[6])`, of a mode register write and of a multipurpose command.
unfoldable pub operand : Edges → ℕ
operand e = number (e.ca_n ++ (nth false e.ca_p 6 ∷ []))

-- A write beyond the 64 registers is one to the last.
abbrev pub put_mr : (ℕ → ℕ) → ℕ → ℕ → ℕ → ℕ
put_mr mr ma op = put mr (min ma 63) op

unfoldable pub act_cond1 : Edges → Bool
act_cond1 e = is (take 3 e.ca_p) 0b111

unfoldable pub act_cond2 : Edges → Bool
act_cond2 e = is (take 3 e.ca_p) 0b011

-- `Cat(row4, row3, row2, row1)`.
unfoldable pub act_row : Edges → ActivateHandler → ℕ
act_row e h = number (e.ca_n ++ (drop 3 e.ca_p ++ (h.row2 ++ h.row1)))

unfoldable pub precharge_cond : Edges → Bool
precharge_cond e = is e.ca_p 0b1111000

unfoldable pub refresh_cond : Edges → Bool
refresh_cond e = is e.ca_p 0b0111000

unfoldable pub mpc_cond : Edges → Bool
mpc_cond e = is (ca_p_6 e) 0b110000

unfoldable pub cas_cond : Edges → Bool
cas_cond e = is (take 4 e.ca_p) 0b1100

unfoldable pub masked_write : Edges → Bool
masked_write e = is (take 3 e.ca_p) 0b010

unfoldable pub write : Edges → Bool
write e = is (take 3 e.ca_p) 0b110

unfoldable pub write32 : Edges → Bool
write32 e = is (take 4 e.ca_p) 0b0100

unfoldable pub read : Edges → Bool
read e = is (take 3 e.ca_p) 0b001

unfoldable pub read32 : Edges → Bool
read32 e = is (take 3 e.ca_p) 0b101

unfoldable pub data_cond : Edges → Bool
unfolding masked_write write write32 read read32
data_cond e = masked_write e || (write e || (write32 e || (read e || read32 e)))

-- The four lowest bits of CA at the falling edge.
abbrev pub bank_of : Edges → ℕ
bank_of e = number (take 4 e.ca_n)

-- `Cat(ca_p[3], ca_n[4:6], ca_p[4:7])`.
unfoldable pub col_of : Edges → ℕ
col_of e = number (take 1 (drop 3 e.ca_p) ++ (take 2 (drop 4 e.ca_n) ++ drop 4 e.ca_p))

abbrev pub is_write : Edges → Bool
unfolding masked_write write write32
is_write e = masked_write e || (write e || write32 e)

-- The latencies are signals of 5 bits.
unfoldable pub data_burst : Edges → Device → Burst
unfolding masked_write write write32 read32 col_of wl rl
data_burst e d = record {
  we = is_write e;
  masked = masked_write e;
  burst32 = write32 e || read32 e;
  bank = bank_of e;
  row = d.active_rows (bank_of e);
  col = col_of e;
  latency =
      if is_write e
      then (wl d.mode_regs + 2 ^ 5 - 1) % 2 ^ 5
      else (rl d.mode_regs + 2 ^ 5 - 2) % 2 ^ 5;
}

unfoldable pub data_messages : Edges → Device → List Message → List Message
unfolding masked_write write write32 wl rl
data_messages e d log =
    let bank_org = d.mode_regs 3 / 2 ^ 3 % 2 ^ 2 in
    note (is_write e && ltb (wl d.mode_regs) 1) Message.wl_too_short (
      note (not (is_write e) && ltb (rl d.mode_regs) 2) Message.rl_too_short (
        note (not (d.active_banks (bank_of e))) Message.cas_on_inactive_bank (
          note (masked_write e && not ((bank_org == 0b00) || (bank_org == 0b10)))
            Message.bank_organization log)))

abbrev sync : ℕ → Edges → ℕ
sync k e = bit_value (nth false e.ca_p k)

-- The sync bits are added as numbers; the other operands are the data copy and the write functions.
unfoldable pub cas_messages : Edges → List Message → List Message
cas_messages e log =
    note (ltb 1 (sync 4 e + sync 5 e + sync 6 e)) Message.more_than_one_sync
      (note (not (is e.ca_n 0)) Message.unsupported_cas log)
