-- ===== src/Phy/Lpddr5/Commands.antt =====
-- litedram/phy/lpddr5/commands.py: a DFI command as the values of CS and CA[6:0] in two cycles of CK,
-- at the rising and at the falling edge. The truth table is less SRE: its bits DSM and PD have no rule,
-- and the adapter never sends it.
use litedram.Base.{ℕ, ◌+◌, ◌%◌, ◌^◌, Bool, true, false, List, [], ◌∷◌, map, ◌==◌, if◌then◌else◌}
use litedram.Phy.Wires.{bit_at}
use litedram.Phy.Dfi.{Phase, DfiCmd, dfi_cmd}

-- A bit of the truth table; `hi` is H, `lo` L, `defined` V, `any` X, `auto` AP, `all` AB.
pub data Bit : Type 0 where
  hi lo defined any auto all rfm ws_wr ws_rd ws_fs wrx wxsa wxsb : Bit
  sb dc ba row col ma op : ℕ → Bit

pub data SmallCommand : Type 0 where
  des nop pde act_1 act_2 pre ref mwr wr16 wr32 rd16 : SmallCommand
  rd32 cas mpc srx mrw_1 mrw_2 mrr wff rff rdc : SmallCommand

-- `_parse_truth_table`: the ranges of bits written out.
unfoldable pub truth_table : SmallCommand → List Bit × List Bit
truth_table des =
    (any ∷ any ∷ any ∷ any ∷ any ∷ any ∷ any ∷ [], any ∷ any ∷ any ∷ any ∷ any ∷ any ∷ any ∷ [])
truth_table nop =
    (lo ∷ lo ∷ lo ∷ lo ∷ lo ∷ lo ∷ lo ∷ [], any ∷ any ∷ any ∷ any ∷ any ∷ any ∷ any ∷ [])
truth_table pde =
    (lo ∷ lo ∷ lo ∷ lo ∷ lo ∷ lo ∷ hi ∷ [], any ∷ any ∷ any ∷ any ∷ any ∷ any ∷ any ∷ [])
truth_table act_1 = (
  hi ∷ hi ∷ hi ∷ row 14 ∷ row 15 ∷ row 16 ∷ row 17 ∷ [],
  ba 0 ∷ ba 1 ∷ ba 2 ∷ ba 3 ∷ row 11 ∷ row 12 ∷ row 13 ∷ [],
)
truth_table act_2 = (
  hi ∷ hi ∷ lo ∷ row 7 ∷ row 8 ∷ row 9 ∷ row 10 ∷ [],
  row 0 ∷ row 1 ∷ row 2 ∷ row 3 ∷ row 4 ∷ row 5 ∷ row 6 ∷ [],
)
truth_table pre = (
  lo ∷ lo ∷ lo ∷ hi ∷ hi ∷ hi ∷ hi ∷ [],
  ba 0 ∷ ba 1 ∷ ba 2 ∷ ba 3 ∷ defined ∷ defined ∷ all ∷ [],
)
truth_table ref =
    (lo ∷ lo ∷ lo ∷ hi ∷ hi ∷ hi ∷ lo ∷ [], ba 0 ∷ ba 1 ∷ ba 2 ∷ rfm ∷ sb 0 ∷ defined ∷ all ∷ [])
truth_table mwr = (
  lo ∷ hi ∷ lo ∷ col 0 ∷ col 3 ∷ col 4 ∷ col 5 ∷ [],
  ba 0 ∷ ba 1 ∷ ba 2 ∷ ba 3 ∷ col 1 ∷ col 2 ∷ auto ∷ [],
)
truth_table wr16 = (
  lo ∷ hi ∷ hi ∷ col 0 ∷ col 3 ∷ col 4 ∷ col 5 ∷ [],
  ba 0 ∷ ba 1 ∷ ba 2 ∷ ba 3 ∷ col 1 ∷ col 2 ∷ auto ∷ [],
)
truth_table wr32 = (
  lo ∷ lo ∷ hi ∷ lo ∷ col 3 ∷ col 4 ∷ col 5 ∷ [],
  ba 0 ∷ ba 1 ∷ ba 2 ∷ ba 3 ∷ col 1 ∷ col 2 ∷ auto ∷ [],
)
truth_table rd16 = (
  hi ∷ lo ∷ lo ∷ col 0 ∷ col 3 ∷ col 4 ∷ col 5 ∷ [],
  ba 0 ∷ ba 1 ∷ ba 2 ∷ ba 3 ∷ col 1 ∷ col 2 ∷ auto ∷ [],
)
truth_table rd32 = (
  hi ∷ lo ∷ hi ∷ col 0 ∷ col 3 ∷ col 4 ∷ col 5 ∷ [],
  ba 0 ∷ ba 1 ∷ ba 2 ∷ ba 3 ∷ col 1 ∷ col 2 ∷ auto ∷ [],
)
truth_table cas = (
  lo ∷ lo ∷ hi ∷ hi ∷ ws_wr ∷ ws_rd ∷ ws_fs ∷ [],
  dc 0 ∷ dc 1 ∷ dc 2 ∷ dc 3 ∷ wrx ∷ wxsa ∷ wxsb ∷ [],
)
truth_table mpc =
    (lo ∷ lo ∷ lo ∷ lo ∷ hi ∷ hi ∷ op 7 ∷ [], op 0 ∷ op 1 ∷ op 2 ∷ op 3 ∷ op 4 ∷ op 5 ∷ op 6 ∷ [])
truth_table srx = (
  lo ∷ lo ∷ lo ∷ hi ∷ lo ∷ hi ∷ lo ∷ [],
  defined ∷ defined ∷ defined ∷ defined ∷ defined ∷ defined ∷ defined ∷ [],
)
truth_table mrw_1 =
    (lo ∷ lo ∷ lo ∷ hi ∷ hi ∷ lo ∷ hi ∷ [], ma 0 ∷ ma 1 ∷ ma 2 ∷ ma 3 ∷ ma 4 ∷ ma 5 ∷ ma 6 ∷ [])
truth_table mrw_2 =
    (lo ∷ lo ∷ lo ∷ hi ∷ lo ∷ lo ∷ op 7 ∷ [], op 0 ∷ op 1 ∷ op 2 ∷ op 3 ∷ op 4 ∷ op 5 ∷ op 6 ∷ [])
truth_table mrr =
    (lo ∷ lo ∷ lo ∷ hi ∷ hi ∷ lo ∷ lo ∷ [], ma 0 ∷ ma 1 ∷ ma 2 ∷ ma 3 ∷ ma 4 ∷ ma 5 ∷ ma 6 ∷ [])
truth_table wff = (lo ∷ lo ∷ lo ∷ lo ∷ lo ∷ hi ∷ hi ∷ [], lo ∷ lo ∷ lo ∷ lo ∷ lo ∷ lo ∷ lo ∷ [])
truth_table rff = (lo ∷ lo ∷ lo ∷ lo ∷ lo ∷ hi ∷ lo ∷ [], lo ∷ lo ∷ lo ∷ lo ∷ lo ∷ lo ∷ lo ∷ [])
truth_table rdc = (lo ∷ lo ∷ lo ∷ lo ∷ hi ∷ lo ∷ hi ∷ [], lo ∷ lo ∷ lo ∷ lo ∷ lo ∷ lo ∷ lo ∷ [])

-- `WCKSyncType`, and 0 for none.
pub data WckSync : Type 0 where
  no_sync wr rd fs : WckSync

abbrev is_wr : WckSync → Bool
is_wr WckSync.wr = true
is_wr _ = false

abbrev is_rd : WckSync → Bool
is_rd WckSync.rd = true
is_rd _ = false

abbrev is_fs : WckSync → Bool
is_fs WckSync.fs = true
is_fs _ = false

-- `SpecialCmd`.
abbrev pub special_mpc : ℕ
special_mpc = 0

abbrev pub special_mrr : ℕ
special_mrr = 1

abbrev pub special_nop : ℕ
special_nop = 2

-- `MPC`.
abbrev pub zqc_start : ℕ
zqc_start = 0b10000101

abbrev pub zqc_latch : ℕ
zqc_latch = 0b10000110

-- `cmd_str.startswith("MRW")` and `cmd_str == "MPC"`.
unfoldable pub is_mrw : SmallCommand → Bool
is_mrw mrw_1 = true
is_mrw mrw_2 = true
is_mrw _ = false

unfoldable pub is_mpc : SmallCommand → Bool
is_mpc mpc = true
is_mpc _ = false

-- Address 0 stands for the latch of a ZQ calibration; the operand has 8 bits.
unfoldable pub mpc_op : Phase → ℕ
mpc_op dfi = if dfi.address == 0 then zqc_latch else dfi.address % 2 ^ 8

unfoldable pub parse_bit : Phase → WckSync → SmallCommand → Bit → Bool
unfolding is_mrw is_mpc mpc_op
parse_bit dfi sync cmd hi = true
parse_bit dfi sync cmd auto = bit_at dfi.address 10
parse_bit dfi sync cmd all = bit_at dfi.address 10
parse_bit dfi sync cmd ws_wr = is_wr sync
parse_bit dfi sync cmd ws_rd = is_rd sync
parse_bit dfi sync cmd ws_fs = is_fs sync
parse_bit dfi sync cmd (ba i) = bit_at dfi.bank i
parse_bit dfi sync cmd (row i) = bit_at dfi.address i
parse_bit dfi sync cmd (col i) = bit_at dfi.address (i + 4)
parse_bit dfi sync cmd (ma i) = bit_at (if is_mrw cmd then dfi.bank else dfi.address) i
parse_bit dfi sync cmd (op i) = bit_at (if is_mpc cmd then mpc_op dfi else dfi.address) i
parse_bit dfi sync cmd _ = false

-- The pads in a cycle of CK; `ca_n` is CA at the falling edge.
pub record Pins : Type 0 where
  pub cs : Bool
  pub ca_p : List Bool
  pub ca_n : List Bool

unfoldable pub selects : SmallCommand → Bool
selects des = false
selects _ = true

-- `Command.set`.
unfoldable pub set : Phase → WckSync → SmallCommand → Pins
unfolding truth_table parse_bit selects
set dfi sync cmd =
    let (p, n) = truth_table cmd in
    record {
      cs = selects cmd;
      ca_p = map (parse_bit dfi sync cmd) p;
      ca_n = map (parse_bit dfi sync cmd) n;
    }

pub record Choice : Type 0 where
  pub cmd1 : SmallCommand
  pub cmd2 : SmallCommand
  pub valid : Bool
  pub wck_sync : WckSync

abbrev cmds : SmallCommand → SmallCommand → Choice
cmds c d = record { cmd1 = c; cmd2 = d; valid = true; wck_sync = WckSync.no_sync }

abbrev pub deselect : Choice
deselect = record { cmd1 = des; cmd2 = des; valid = false; wck_sync = WckSync.no_sync }

-- A command after CAS, which synchronizes WCK where this is not yet done.
abbrev cas_cmds : (wck_sync_done : Bool) → WckSync → SmallCommand → Choice
cas_cmds wck_sync_done sync c = record {
  cmd1 = cas;
  cmd2 = c;
  valid = true;
  wck_sync = if wck_sync_done then WckSync.no_sync else sync;
}

-- The bank chooses the command that a ZQC of the DFI stands for.
unfoldable pub choose_special : (wck_sync_done mpc_bank mrr_bank nop_bank : Bool) → Choice
choose_special wck_sync_done true mrr_bank nop_bank = cmds des mpc
choose_special wck_sync_done false true nop_bank = cas_cmds wck_sync_done WckSync.rd mrr
choose_special wck_sync_done false false true = cmds des nop
choose_special wck_sync_done false false false = deselect

unfoldable pub choose : (masked_write wck_sync_done : Bool) → Phase → DfiCmd → Choice
unfolding choose_special
choose masked_write wck_sync_done dfi DfiCmd.act = cmds act_1 act_2
choose masked_write wck_sync_done dfi DfiCmd.rd = cas_cmds wck_sync_done WckSync.rd rd16
choose masked_write wck_sync_done dfi DfiCmd.wr =
    cas_cmds wck_sync_done WckSync.wr (if masked_write then mwr else wr16)
choose masked_write wck_sync_done dfi DfiCmd.pre = cmds des pre
choose masked_write wck_sync_done dfi DfiCmd.ref = cmds des ref
choose masked_write wck_sync_done dfi DfiCmd.zqc =
    choose_special wck_sync_done (dfi.bank == special_mpc) (dfi.bank == special_mrr)
      (dfi.bank == special_nop)
choose masked_write wck_sync_done dfi DfiCmd.mrs = cmds mrw_1 mrw_2
choose masked_write wck_sync_done dfi DfiCmd.nop = deselect

-- Without a chip select no signal is assigned: all are 0, as for two deselects.
unfoldable pub choice : (masked_write wck_sync_done : Bool) → Phase → Choice
unfolding choose
choice masked_write wck_sync_done dfi =
    if dfi.cs_n == 0 then choose masked_write wck_sync_done dfi (dfi_cmd dfi) else deselect

-- The two cycles of `DFIPhaseAdapter`.
unfoldable pub adapter : (masked_write wck_sync_done : Bool) → Phase → List Pins
unfolding set choice
adapter masked_write wck_sync_done dfi =
    let c = choice masked_write wck_sync_done dfi in
    set dfi c.wck_sync c.cmd1 ∷ set dfi c.wck_sync c.cmd2 ∷ []
