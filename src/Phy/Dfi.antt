-- ===== src/Phy/Dfi.antt =====
-- A phase of the DFI (litedram/phy/dfi.py), the command that it encodes, and the phase injector of
-- litedram/dfii.py, by which software issues the steps of an initialization sequence.
use litedram.Base.{ℕ, ◌-◌, ◌%◌, ◌^◌, Bool, true, false, not, if◌then◌else◌}

-- The command signals of a phase.
pub record Phase : Type 0 where
  pub cs_n : ℕ
  pub bank : ℕ
  pub address : ℕ
  pub cas_n : Bool
  pub ras_n : Bool
  pub we_n : Bool

-- The commands by `Cat(~we_n, ~ras_n, ~cas_n)`.
pub data DfiCmd : Type 0 where
  nop act rd wr pre ref zqc mrs : DfiCmd

abbrev pub dfi_cmd : Phase → DfiCmd
dfi_cmd p = elim (not p.cas_n) [
  | true ↦ elim (not p.ras_n) [
    | true ↦ (if not p.we_n then DfiCmd.mrs else DfiCmd.ref)
    | false ↦ (if not p.we_n then DfiCmd.wr else DfiCmd.rd)
  ]
  | false ↦ elim (not p.ras_n) [
    | true ↦ (if not p.we_n then DfiCmd.pre else DfiCmd.act)
    | false ↦ (if not p.we_n then DfiCmd.zqc else DfiCmd.nop)
  ]
]

-- `CSRField`s of the command register, and the registers of address and bank.
pub record Registers : Type 0 where
  pub cs : Bool
  pub we : Bool
  pub cas : Bool
  pub ras : Bool
  pub cs_top : Bool
  pub cs_bottom : Bool
  pub address : ℕ
  pub baddress : ℕ

-- The phase in a cycle in which the command is issued or not; `nranks` is the width of `cs_n`.
unfoldable pub phase_injector : (nranks : ℕ) (issue : Bool) → Registers → Phase
phase_injector nranks issue r = record {
  cs_n =
      if issue
      then (if r.cs_top
          then 2 % 2 ^ nranks
          else if r.cs_bottom
          then 1 % 2 ^ nranks
          else if r.cs
          then 0
          else 2 ^ nranks - 1)
      else 2 ^ nranks - 1;
  bank = r.baddress;
  address = r.address;
  cas_n = if issue then not r.cas else true;
  ras_n = if issue then not r.ras else true;
  we_n = if issue then not r.we else true;
}
