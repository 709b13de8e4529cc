-- ===== src/Phy/Lpddr4/Decoded/Frame.antt =====
-- The two small commands of one DFI command, handled by the simulated chip.
use mathlib.Core.Path.{ap₂}
use litedram.Base.{
  ℕ, ◌*◌, ◌/◌, ◌%◌, ◌^◌, ◌≡◌, refl, ap, ◌∙◌, arith, Bool, true, false, ◌∷◌, map, ◌==◌,
  if◌then◌else◌,
}
use litedram.Phy.Wires.{bit_at, wires, number, is, number-wires}
use litedram.Phy.Dfi.{Phase, DfiCmd, dfi_cmd}
use litedram.Phy.Lpddr4.Commands.{
  SmallCommand, Choice, no_command, truth_table, is_mrw, parse_bit, selects, choose_special, choose,
  choice, special_mpc, special_mrr,
}
use litedram.Phy.Lpddr4.Sim.{
  Chip, mrw_cond1, mrw_cond2, mrw_next, mrw_op, act_cond1, act_cond2, act_next, act_row, cas_cond1,
  cas_cond2, cas_next, cas_col, cas_burst, cas_messages, refresh_cond, precharge_cond, mpc_cond,
  mpc_op,
}
use litedram.Phy.Lpddr4.Chip.{
  handle, known_mpc, mrw_matched, act_matched, cas_matched, no_match, messages, mrw_write,
  row_write, act_write, pre_write, cas_write,
}
use litedram.Phy.Lpddr4.Decoded.{
  View, activate, access, precharge, refresh, multipurpose, load_mode, read_mode, special,
  on_command, effect, Registers, at_rest,
}

abbrev pub registers : Chip → Registers
registers c = record {
  ma = c.mrw.ma;
  op7 = c.mrw.op7;
  act_bank = c.act.bank;
  row1 = c.act.row1;
  cas1 = c.cas.cas1;
  cas_bank = c.cas.bank;
  col9 = c.cas.col9;
  burst_len = c.cas.burst_len;
  auto_precharge = c.cas.auto_precharge;
}

unfoldable pub small : Phase → SmallCommand → Chip → Chip
unfolding truth_table is_mrw parse_bit selects handle
small p cmd c =
    let (first, second) = truth_table cmd in
    if selects cmd
    then handle
        (record {
          cs_high = map (parse_bit p (is_mrw cmd)) first;
          cs_low = map (parse_bit p (is_mrw cmd)) second;
          sink_ready = true;
        })
        c
    else c

abbrev pub smalls : Phase → Choice → Chip → Chip
smalls p ch c = small p ch.cmd2 (small p ch.cmd1 c)

ap₃ :
    {A B C D : Type 0} (f : A → B → C → D) {a a' : A} {b b' : B} {c c' : C}
    → a ≡ a'
    → b ≡ b'
    → c ≡ c'
    → f a b c ≡ f a' b' c'
ap₃ f {a = a} {b' = b'} {c = c} p q r = ap₂ (λ x y. f x y c) p q ∙ ap (f _ b') r

column : (a : ℕ) → number (false ∷ false ∷ wires 8 (a / 2 / 2)) ≡ a / 4 % 2 ^ 8 * 4
column a = omega (
  arith,
  number-wires 8 (a / 2 / 2),
  let e : a / 2 / 2 ≡ a / 4 = omega arith in ap (λ (n : ℕ). n % 2 ^ 8) e,
)

aligned : (a : ℕ) → is (wires 2 (a / 2 / 2)) 0 ≡ (a / 4 % 4 == 0)
aligned a = ground arith

special_lem :
    (mpc mrr : Bool) (p : Phase) (r : Registers) (v : View)
    → let c = smalls p (choose_special mpc mrr) (at_rest r v) in
      c ≡ at_rest (registers c) (special mpc mrr p v)
unfolding small choose truth_table is_mrw parse_bit selects handle mrw_cond1 mrw_cond2 mrw_next
    mrw_op act_cond1 act_cond2 act_next act_row cas_cond1 cas_cond2 cas_next cas_col cas_burst
    cas_messages refresh_cond precharge_cond mpc_cond mpc_op mrw_matched act_matched cas_matched
    no_match messages mrw_write row_write act_write pre_write cas_write known_mpc choose_special
    special on_command activate access precharge refresh multipurpose load_mode read_mode
special_lem true mrr p r v =
    ap
      (λ op.
        at_rest (registers (smalls p (choose_special true mrr) (at_rest r v)))
          (multipurpose (bit_at p.address 6) op v))
      (number-wires 7 p.address)
special_lem false true p r v = refl
special_lem false false p r v = refl

-- A command is handled as the effect says, and leaves no command half done.
on_command_lem :
    (m : Bool) (p : Phase) (d : DfiCmd) (r : Registers) (v : View)
    → let c = smalls p (choose m p d) (at_rest r v) in
      c ≡ at_rest (registers c) (on_command m p d v)
unfolding small choose truth_table is_mrw parse_bit selects handle mrw_cond1 mrw_cond2 mrw_next
    mrw_op act_cond1 act_cond2 act_next act_row cas_cond1 cas_cond2 cas_next cas_col cas_burst
    cas_messages refresh_cond precharge_cond mpc_cond mpc_op mrw_matched act_matched cas_matched
    no_match messages mrw_write row_write act_write pre_write cas_write known_mpc choose_special
    special on_command activate access precharge refresh multipurpose load_mode read_mode
on_command_lem m p DfiCmd.nop r v = refl
on_command_lem m p DfiCmd.act r v =
    ap₂
      (λ bank row.
        at_rest (registers (smalls p (choose m p DfiCmd.act) (at_rest r v))) (activate bank row v))
      (number-wires 3 p.bank) (number-wires 17 p.address)
on_command_lem m p DfiCmd.rd r v =
    ap₂
      (λ bank col.
        at_rest (registers (smalls p (choose m p DfiCmd.rd) (at_rest r v)))
          (access false false (bit_at p.address 10) true bank col v))
      (number-wires 3 p.bank) (column p.address)
on_command_lem true p DfiCmd.wr r v =
    ap₃
      (λ bank col fit.
        at_rest (registers (smalls p (choose true p DfiCmd.wr) (at_rest r v)))
          (access true true (bit_at p.address 10) fit bank col v))
      (number-wires 3 p.bank) (column p.address) (aligned p.address)
on_command_lem false p DfiCmd.wr r v =
    ap₃
      (λ bank col fit.
        at_rest (registers (smalls p (choose false p DfiCmd.wr) (at_rest r v)))
          (access true false (bit_at p.address 10) fit bank col v))
      (number-wires 3 p.bank) (column p.address) (aligned p.address)
on_command_lem m p DfiCmd.pre r v =
    ap
      (λ bank.
        at_rest (registers (smalls p (choose m p DfiCmd.pre) (at_rest r v)))
          (precharge (bit_at p.address 10) bank v))
      (number-wires 3 p.bank)
on_command_lem m p DfiCmd.ref r v = refl
on_command_lem m p DfiCmd.zqc r v =
    special_lem (p.bank == special_mpc) (p.bank == special_mrr) p r v
on_command_lem m p DfiCmd.mrs r v =
    ap₂
      (λ ma op.
        at_rest (registers (smalls p (choose m p DfiCmd.mrs) (at_rest r v))) (load_mode ma op v))
      (number-wires 6 p.bank) (number-wires 8 p.address)

gated :
    (selected m : Bool) (p : Phase) (d : DfiCmd) (r : Registers) (v : View)
    → let c = smalls p (if selected then choose m p d else no_command) (at_rest r v) in
      c ≡ at_rest (registers c) (if selected then on_command m p d v else v)
unfolding small selects truth_table
gated true m p d r v = on_command_lem m p d r v
gated false m p d r v = refl

pub effect_lem :
    (m : Bool) (p : Phase) (r : Registers) (v : View)
    → let c = smalls p (choice m p) (at_rest r v) in c ≡ at_rest (registers c) (effect m p v)
unfolding effect choice
effect_lem m p r v = gated (p.cs_n == 0) m p (dfi_cmd p) r v
