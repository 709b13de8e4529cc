-- ===== src/Phy/Lpddr5/Decoded/Frame.antt =====
-- The two small commands of one DFI command, handled by the simulated LPDDR5 chip.
use mathlib.Core.Path.{ap₂}
use litedram.Base.{
  ℕ, ◌/◌, ◌%◌, ◌^◌, ◌≡◌, refl, ap, ◌∙◌, arith, Bool, true, false, none, some, ◌==◌, if◌then◌else◌,
}
use litedram.Phy.Wires.{bit_at, wires, number, number-wires}
use litedram.Phy.Dfi.{Phase, DfiCmd, dfi_cmd}
use litedram.Phy.PulseTiming
use litedram.Phy.Lpddr5.Commands.{
  WckSync, SmallCommand, Choice, truth_table, is_mrw, is_mpc, mpc_op, parse_bit, selects, set,
  choose_special, choose, choice, deselect, special_mpc, special_mrr, special_nop,
}
use litedram.Phy.Lpddr5.Sim.{
  Chip, mrw_cond1, mrw_cond2, operand, act_cond1, act_cond2, act_row, precharge_cond, refresh_cond,
  mpc_cond, cas_cond, masked_write, write, write32, read, read32, data_cond, col_of, data_burst,
  data_messages, cas_messages,
}
use litedram.Phy.Lpddr5.Chip.{
  mrw_next, mrw_matched, act_trigger, timeout, act_next, activates, act_matched, no_match,
  some_active, is_zqc, messages, mrw_write, row_write, bank_write, handle,
}
use litedram.Phy.Lpddr5.Decoded.{
  View, activate, access, precharge, refresh, multipurpose, load_mode, unexpected, special,
  on_command, effect, Registers, at_rest,
}

abbrev pub registers : Chip → Registers
registers c = record {
  ma = c.mrw.ma;
  bank = c.act.bank;
  row1 = c.act.row1;
  row2 = c.act.row2;
  timer = c.act.timer;
}

-- The cycle in which a small command is in the chip's registers.
unfoldable pub small : Phase → WckSync → SmallCommand → Chip → Chip
unfolding set handle
small p sync cmd c =
    let pins = set p sync cmd in
    handle (if pins.cs then some (record { ca_p = pins.ca_p; ca_n = pins.ca_n }) else none) c

abbrev pub smalls : Phase → Choice → Chip → Chip
smalls p ch c = small p ch.wck_sync ch.cmd2 (small p ch.wck_sync ch.cmd1 c)

column : (a : ℕ) → number (wires 6 (a / 2 / 2 / 2 / 2)) ≡ a / 2 ^ 4 % 2 ^ 6
column a =
    number-wires 6 (a / 2 / 2 / 2 / 2)
    ∙ ap (λ (n : ℕ). n % 2 ^ 6) (let e : a / 2 / 2 / 2 / 2 ≡ a / 2 ^ 4 = omega arith in e)

special_lem :
    (done b1 b2 b3 : Bool) (p : Phase) (r : Registers) (v : View)
    → let c = smalls p (choose_special done b1 b2 b3) (at_rest r v) in
      c ≡ at_rest (registers c) (special b1 b2 b3 p v)
unfolding small set truth_table is_mrw is_mpc mpc_op parse_bit selects choose_special choose
    mrw_cond1 mrw_cond2 operand act_cond1 act_cond2 act_row precharge_cond refresh_cond mpc_cond
    cas_cond masked_write write write32 read read32 data_cond col_of data_burst data_messages
    cas_messages mrw_next mrw_matched act_trigger timeout act_next activates act_matched no_match
    some_active is_zqc messages mrw_write row_write bank_write handle activate access precharge
    refresh multipurpose load_mode unexpected special on_command PulseTiming.ready PulseTiming.step
    PulseTiming.next_count PulseTiming.next_ready
special_lem done true b2 b3 p r v =
    ap
      (λ op.
        at_rest (registers (smalls p (choose_special done true b2 b3) (at_rest r v)))
          (multipurpose op v))
      (number-wires 8 (mpc_op p))
special_lem true false true b3 p r v = refl
special_lem false false true b3 p r v = refl
special_lem done false false true p r v = refl
special_lem done false false false p r v = refl

-- A command is handled as the effect says, and leaves no command half done.
on_command_lem :
    (m done : Bool) (p : Phase) (d : DfiCmd) (r : Registers) (v : View)
    → let c = smalls p (choose m done p d) (at_rest r v) in
      c ≡ at_rest (registers c) (on_command m p d v)
unfolding small set truth_table is_mrw is_mpc mpc_op parse_bit selects choose_special choose
    mrw_cond1 mrw_cond2 operand act_cond1 act_cond2 act_row precharge_cond refresh_cond mpc_cond
    cas_cond masked_write write write32 read read32 data_cond col_of data_burst data_messages
    cas_messages mrw_next mrw_matched act_trigger timeout act_next activates act_matched no_match
    some_active is_zqc messages mrw_write row_write bank_write handle activate access precharge
    refresh multipurpose load_mode unexpected special on_command PulseTiming.ready PulseTiming.step
    PulseTiming.next_count PulseTiming.next_ready
on_command_lem m done p DfiCmd.nop r v = refl
on_command_lem m done p DfiCmd.act r v =
    ap₂
      (λ bank row.
        at_rest (registers (smalls p (choose m done p DfiCmd.act) (at_rest r v)))
          (activate bank row v))
      (number-wires 4 p.bank) (number-wires 18 p.address)
on_command_lem m true p DfiCmd.rd r v =
    ap₂
      (λ bank col.
        at_rest (registers (smalls p (choose m true p DfiCmd.rd) (at_rest r v)))
          (access false false (bit_at p.address 10) bank col v))
      (number-wires 4 p.bank) (column p.address)
on_command_lem m false p DfiCmd.rd r v =
    ap₂
      (λ bank col.
        at_rest (registers (smalls p (choose m false p DfiCmd.rd) (at_rest r v)))
          (access false false (bit_at p.address 10) bank col v))
      (number-wires 4 p.bank) (column p.address)
on_command_lem true true p DfiCmd.wr r v =
    ap₂
      (λ bank col.
        at_rest (registers (smalls p (choose true true p DfiCmd.wr) (at_rest r v)))
          (access true true (bit_at p.address 10) bank col v))
      (number-wires 4 p.bank) (column p.address)
on_command_lem true false p DfiCmd.wr r v =
    ap₂
      (λ bank col.
        at_rest (registers (smalls p (choose true false p DfiCmd.wr) (at_rest r v)))
          (access true true (bit_at p.address 10) bank col v))
      (number-wires 4 p.bank) (column p.address)
on_command_lem false true p DfiCmd.wr r v =
    ap₂
      (λ bank col.
        at_rest (registers (smalls p (choose false true p DfiCmd.wr) (at_rest r v)))
          (access true false (bit_at p.address 10) bank col v))
      (number-wires 4 p.bank) (column p.address)
on_command_lem false false p DfiCmd.wr r v =
    ap₂
      (λ bank col.
        at_rest (registers (smalls p (choose false false p DfiCmd.wr) (at_rest r v)))
          (access true false (bit_at p.address 10) bank col v))
      (number-wires 4 p.bank) (column p.address)
on_command_lem m done p DfiCmd.pre r v =
    ap
      (λ bank.
        at_rest (registers (smalls p (choose m done p DfiCmd.pre) (at_rest r v)))
          (precharge (bit_at p.address 10) bank v))
      (number-wires 4 p.bank)
on_command_lem m done p DfiCmd.ref r v = refl
on_command_lem m done p DfiCmd.zqc r v =
    special_lem done (p.bank == special_mpc) (p.bank == special_mrr) (p.bank == special_nop) p r v
on_command_lem m done p DfiCmd.mrs r v =
    ap₂
      (λ ma op.
        at_rest (registers (smalls p (choose m done p DfiCmd.mrs) (at_rest r v)))
          (load_mode ma op v))
      (number-wires 7 p.bank) (number-wires 8 p.address)

gated :
    (selected m done : Bool) (p : Phase) (d : DfiCmd) (r : Registers) (v : View)
    → let c = smalls p (if selected then choose m done p d else deselect) (at_rest r v) in
      c ≡ at_rest (registers c) (if selected then on_command m p d v else v)
unfolding small set truth_table selects parse_bit handle mrw_next act_next act_trigger timeout
    PulseTiming.step
gated true m done p d r v = on_command_lem m done p d r v
gated false m done p d r v = refl

pub effect_lem :
    (m done : Bool) (p : Phase) (r : Registers) (v : View)
    → let c = smalls p (choice m done p) (at_rest r v) in c ≡ at_rest (registers c) (effect m p v)
unfolding effect choice
effect_lem m done p r v = gated (p.cs_n == 0) m done p (dfi_cmd p) r v
