-- ===== src/Phy/Lpddr4/Commands.antt =====
-- litedram/phy/lpddr4/commands.py: a DFI command as the values of CS and CA[5:0] in four cycles.
use litedram.Base.{ℕ, Bool, true, false, List, [], ◌∷◌, ◌++◌, map, ◌==◌, if◌then◌else◌}
use litedram.Phy.Wires.{bit_at}
use litedram.Phy.Dfi.{Phase, DfiCmd, dfi_cmd}

-- A bit of the truth table; `hi` is H, `lo` L, `defined` V, `any` X, `bl` BL, `auto` AP, `all` AB.
pub data Bit : Type 0 where
  hi lo defined any bl auto all : Bit
  ba row col ma op : ℕ → Bit

pub data SmallCommand : Type 0 where
  mrw_1 mrw_2 mrr_1 refresh activate_1 activate_2 : SmallCommand
  write_1 mask_write_1 read_1 cas_2 precharge mpc deselect : SmallCommand

-- What is on CA in the first and in the second cycle.
abbrev pub Edges : Type 0
Edges = List Bit × List Bit

unfoldable pub truth_table : SmallCommand → Edges
truth_table mrw_1 =
    (lo ∷ hi ∷ hi ∷ lo ∷ lo ∷ op 7 ∷ [], ma 0 ∷ ma 1 ∷ ma 2 ∷ ma 3 ∷ ma 4 ∷ ma 5 ∷ [])
truth_table mrw_2 =
    (lo ∷ hi ∷ hi ∷ lo ∷ hi ∷ op 6 ∷ [], op 0 ∷ op 1 ∷ op 2 ∷ op 3 ∷ op 4 ∷ op 5 ∷ [])
truth_table mrr_1 =
    (lo ∷ hi ∷ hi ∷ hi ∷ lo ∷ defined ∷ [], ma 0 ∷ ma 1 ∷ ma 2 ∷ ma 3 ∷ ma 4 ∷ ma 5 ∷ [])
truth_table refresh =
    (lo ∷ lo ∷ lo ∷ hi ∷ lo ∷ all ∷ [], ba 0 ∷ ba 1 ∷ ba 2 ∷ defined ∷ defined ∷ defined ∷ [])
truth_table activate_1 = (
  hi ∷ lo ∷ row 12 ∷ row 13 ∷ row 14 ∷ row 15 ∷ [],
  ba 0 ∷ ba 1 ∷ ba 2 ∷ row 16 ∷ row 10 ∷ row 11 ∷ [],
)
truth_table activate_2 = (
  hi ∷ hi ∷ row 6 ∷ row 7 ∷ row 8 ∷ row 9 ∷ [],
  row 0 ∷ row 1 ∷ row 2 ∷ row 3 ∷ row 4 ∷ row 5 ∷ [],
)
truth_table write_1 =
    (lo ∷ lo ∷ hi ∷ lo ∷ lo ∷ bl ∷ [], ba 0 ∷ ba 1 ∷ ba 2 ∷ defined ∷ col 9 ∷ auto ∷ [])
truth_table mask_write_1 =
    (lo ∷ lo ∷ hi ∷ hi ∷ lo ∷ bl ∷ [], ba 0 ∷ ba 1 ∷ ba 2 ∷ defined ∷ col 9 ∷ auto ∷ [])
truth_table read_1 =
    (lo ∷ hi ∷ lo ∷ lo ∷ lo ∷ bl ∷ [], ba 0 ∷ ba 1 ∷ ba 2 ∷ defined ∷ col 9 ∷ auto ∷ [])
truth_table cas_2 =
    (lo ∷ hi ∷ lo ∷ lo ∷ hi ∷ col 8 ∷ [], col 2 ∷ col 3 ∷ col 4 ∷ col 5 ∷ col 6 ∷ col 7 ∷ [])
truth_table precharge =
    (lo ∷ lo ∷ lo ∷ lo ∷ hi ∷ all ∷ [], ba 0 ∷ ba 1 ∷ ba 2 ∷ defined ∷ defined ∷ defined ∷ [])
truth_table mpc = (lo ∷ lo ∷ lo ∷ lo ∷ lo ∷ op 6 ∷ [], op 0 ∷ op 1 ∷ op 2 ∷ op 3 ∷ op 4 ∷ op 5 ∷ [])
truth_table deselect =
    (any ∷ any ∷ any ∷ any ∷ any ∷ any ∷ [], any ∷ any ∷ any ∷ any ∷ any ∷ any ∷ [])

-- `cmd.startswith("MRW")`.
unfoldable pub is_mrw : SmallCommand → Bool
is_mrw mrw_1 = true
is_mrw mrw_2 = true
is_mrw _ = false

unfoldable pub parse_bit : Phase → (mrw : Bool) → Bit → Bool
parse_bit dfi mrw hi = true
parse_bit dfi mrw lo = false
parse_bit dfi mrw defined = false
parse_bit dfi mrw any = false
parse_bit dfi mrw bl = false
parse_bit dfi mrw auto = bit_at dfi.address 10
parse_bit dfi mrw all = bit_at dfi.address 10
parse_bit dfi mrw (ba i) = bit_at dfi.bank i
parse_bit dfi mrw (row i) = bit_at dfi.address i
parse_bit dfi mrw (col i) = bit_at dfi.address i
parse_bit dfi mrw (ma i) = bit_at (if mrw then dfi.bank else dfi.address) i
parse_bit dfi mrw (op i) = bit_at dfi.address i

-- The pads in one cycle.
pub record Pins : Type 0 where
  pub cs : Bool
  pub ca : List Bool

unfoldable pub selects : SmallCommand → Bool
selects deselect = false
selects _ = true

-- `Command.set`: the two cycles of a small command; CS is low in the second.
unfoldable pub set : Phase → SmallCommand → List Pins
unfolding truth_table is_mrw parse_bit selects
set dfi cmd =
    let (first, second) = truth_table cmd in
    record { cs = selects cmd; ca = map (parse_bit dfi (is_mrw cmd)) first }
    ∷ record { cs = false; ca = map (parse_bit dfi (is_mrw cmd)) second }
    ∷ []

-- `SpecialCmd`.
abbrev pub special_mpc : ℕ
special_mpc = 0

abbrev pub special_mrr : ℕ
special_mrr = 1

-- `MPC`.
abbrev pub zqc_start : ℕ
zqc_start = 0b1001111

abbrev pub zqc_latch : ℕ
zqc_latch = 0b1010001

abbrev pub mpc_codes : List ℕ
mpc_codes =
    0b0000000 ∷ 0b1000001 ∷ 0b1000011 ∷ 0b1000111 ∷ 0b1001011 ∷ 0b1001101 ∷ zqc_start ∷ zqc_latch
    ∷ []

-- The two small commands and `valid`.
pub record Choice : Type 0 where
  pub cmd1 : SmallCommand
  pub cmd2 : SmallCommand
  pub valid : Bool

abbrev cmds : SmallCommand → SmallCommand → Choice
cmds c d = record { cmd1 = c; cmd2 = d; valid = true }

abbrev pub no_command : Choice
no_command = record { cmd1 = deselect; cmd2 = deselect; valid = false }

-- The bank chooses the command that a ZQC of the DFI stands for.
unfoldable pub choose_special : (mpc mrr : Bool) → Choice
choose_special true mrr = cmds deselect mpc
choose_special false true = cmds mrr_1 cas_2
choose_special false false = no_command

unfoldable pub choose : (masked_write : Bool) → Phase → DfiCmd → Choice
unfolding choose_special
choose masked_write dfi DfiCmd.act = cmds activate_1 activate_2
choose masked_write dfi DfiCmd.rd = cmds read_1 cas_2
choose masked_write dfi DfiCmd.wr =
    if masked_write then cmds mask_write_1 cas_2 else cmds write_1 cas_2
choose masked_write dfi DfiCmd.pre = cmds deselect precharge
choose masked_write dfi DfiCmd.ref = cmds deselect refresh
choose masked_write dfi DfiCmd.zqc =
    choose_special (dfi.bank == special_mpc) (dfi.bank == special_mrr)
choose masked_write dfi DfiCmd.mrs = cmds mrw_1 mrw_2
choose masked_write dfi DfiCmd.nop = no_command

-- Without a chip select no signal is assigned: all are 0, as for two deselects.
unfoldable pub choice : (masked_write : Bool) → Phase → Choice
unfolding choose
choice masked_write dfi =
    if dfi.cs_n == 0 then choose masked_write dfi (dfi_cmd dfi) else no_command

-- The four cycles of `DFIPhaseAdapter`.
unfoldable pub adapter : (masked_write : Bool) → Phase → List Pins
unfolding set choice
adapter masked_write dfi = let c = choice masked_write dfi in set dfi c.cmd1 ++ set dfi c.cmd2
