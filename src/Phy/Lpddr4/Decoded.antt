-- ===== src/Phy/Lpddr4/Decoded.antt =====
-- What the simulated chip makes of the commands of the DFI, by the adapter's cycles.
pub mod Stream
pub mod Frame
use mathlib.Core.Path.{ap₂}
use litedram.Base.{
  ℕ, ◌*◌, ◌/◌, ◌%◌, ◌^◌, ◌≡◌, refl, sym, ap, ◌∙◌, arith, Bool, true, false, not, ◌&&◌, ◌||◌, List,
  [], ◌∷◌, ◌++◌, ◌==◌, if◌then◌else◌,
}
use litedram.Phy.Wires.{bit_at, wires, number, is, number-wires}
use litedram.Phy.Dfi.{Phase, DfiCmd, dfi_cmd}
use litedram.Phy.Lpddr4.Commands.{
  Pins, SmallCommand, Choice, truth_table, is_mrw, parse_bit, selects, set, choose, choice, adapter,
  special_mpc, special_mrr, mpc_codes,
}
use litedram.Phy.Lpddr4.Sim.{Message, Burst, Device, put, Half, Chip, note, some_active}
use litedram.Phy.Lpddr4.Chip.{InitState, Inputs, handle, step, known_mpc}

-- The chip as the controller sees it.
pub record View : Type 0 where
  pub device : Device
  pub log : List Message
  pub bursts : List Burst

unfoldable pub activate : (bank row : ℕ) → View → View
activate bank row v =
    let d = v.device in
    record v {
      device = record d {
        active_banks = put d.active_banks bank true;
        active_rows = put d.active_rows bank row;
      };
      log = note (d.active_banks bank) Message.act_on_active_bank v.log;
    }

-- A read or a write of the open row, with the bank closed after it or not.
unfoldable pub access : (we masked close aligned : Bool) (bank col : ℕ) → View → View
access we masked close aligned bank col v =
    let d = v.device in
    record {
      device = record d {
        active_banks = if close then put d.active_banks bank false else d.active_banks;
      };
      log = note (not (d.active_banks bank)) Message.cas_on_inactive_bank (
          note (we && not aligned) Message.write_not_aligned (
            note (bit_at (d.mode_regs 3) 6 || bit_at (d.mode_regs 3) 7) Message.dbi_not_supported
              (note (masked && bit_at (d.mode_regs 13) 5) Message.data_mask_disabled v.log)));
      bursts =
          record { we = we; masked = masked; bank = bank; row = d.active_rows bank; col = col }
          ∷ v.bursts;
    }

unfoldable pub precharge : (all : Bool) (bank : ℕ) → View → View
precharge all bank v =
    let d = v.device in
    record v {
      device = record d {
        active_banks = if all then (λ b. false) else put d.active_banks bank false;
      };
      log = note (not all && not (d.active_banks bank)) Message.pre_on_inactive_bank v.log;
    }

unfoldable pub refresh : View → View
refresh v = record v {
  log = note (some_active v.device.active_banks) Message.refresh_with_active_banks v.log;
}

-- The lowest codes, without OP[6], are NOP.
unfoldable pub multipurpose : (op6 : Bool) (op : ℕ) → View → View
multipurpose op6 op v = record v {
  log = note (op6 && not (known_mpc op mpc_codes)) Message.invalid_mpc v.log;
}

unfoldable pub load_mode : (ma op : ℕ) → View → View
load_mode ma op v =
    let d = v.device in record v { device = record d { mode_regs = put d.mode_regs ma op } }

-- Neither small command of a mode register read has a handler.
unfoldable pub read_mode : View → View
read_mode v = record v { log = Message.unexpected_command ∷ Message.unexpected_command ∷ v.log }

unfoldable pub special : (mpc mrr : Bool) → Phase → View → View
unfolding multipurpose read_mode
special true mrr p v = multipurpose (bit_at p.address 6) (p.address % 2 ^ 7) v
special false true p v = read_mode v
special false false p v = v

-- A command, with its operands from the DFI's bank and address.
unfoldable pub on_command : (masked_write : Bool) → Phase → DfiCmd → View → View
unfolding activate access precharge refresh load_mode special
on_command masked_write p DfiCmd.nop v = v
on_command masked_write p DfiCmd.act v = activate (p.bank % 2 ^ 3) (p.address % 2 ^ 17) v
on_command masked_write p DfiCmd.rd v =
    access false false (bit_at p.address 10) true (p.bank % 2 ^ 3) (p.address / 4 % 2 ^ 8 * 4) v
on_command masked_write p DfiCmd.wr v =
    access true masked_write (bit_at p.address 10) (p.address / 4 % 4 == 0) (p.bank % 2 ^ 3)
      (p.address / 4 % 2 ^ 8 * 4) v
on_command masked_write p DfiCmd.pre v = precharge (bit_at p.address 10) (p.bank % 2 ^ 3) v
on_command masked_write p DfiCmd.ref v = refresh v
on_command masked_write p DfiCmd.zqc v = special (p.bank == special_mpc) (p.bank == special_mrr) p v
on_command masked_write p DfiCmd.mrs v = load_mode (p.bank % 2 ^ 6) (p.address % 2 ^ 8) v

-- A phase of the DFI, and several in order.
unfoldable pub effect : (masked_write : Bool) → Phase → View → View
unfolding on_command
effect masked_write p v = if p.cs_n == 0 then on_command masked_write p (dfi_cmd p) v else v

unfoldable pub effects : (masked_write : Bool) → List Phase → View → View
unfolding effect
effects masked_write [] v = v
effects masked_write (p ∷ ps) v = effects masked_write ps (effect masked_write p v)

-- The registers of the handlers between two commands.
pub record Registers : Type 0 where
  pub ma : List Bool
  pub op7 : Bool
  pub act_bank : List Bool
  pub row1 : List Bool
  pub cas1 : List Bool
  pub cas_bank : List Bool
  pub col9 : Bool
  pub burst_len : Bool
  pub auto_precharge : Bool

-- A chip with no command half done.
abbrev pub at_rest : Registers → View → Chip
at_rest r v = record {
  mrw = record { half = Half.first; ma = r.ma; op7 = r.op7 };
  act = record { half = Half.first; bank = r.act_bank; row1 = r.row1 };
  cas = record {
    half = Half.first;
    cas1 = r.cas1;
    bank = r.cas_bank;
    col9 = r.col9;
    burst_len = r.burst_len;
    auto_precharge = r.auto_precharge;
  };
  device = v.device;
  log = v.log;
  bursts = v.bursts;
}

abbrev pub view : Chip → View
view c = record { device = c.device; log = c.log; bursts = c.bursts }
