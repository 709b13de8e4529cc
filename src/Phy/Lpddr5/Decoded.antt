-- ===== src/Phy/Lpddr5/Decoded.antt =====
-- What the simulated LPDDR5 chip makes of the commands of the DFI, by the adapter's cycles.
pub mod Stream
pub mod Frame
use litedram.Base.{
  ℕ, ◌+◌, ◌-◌, ◌/◌, ◌%◌, ◌^◌, ◌≡◌, min, Bool, true, false, not, ◌&&◌, ◌||◌, List, [], ◌∷◌, ◌==◌,
  ltb, if◌then◌else◌,
}
use litedram.Phy.Wires.{bit_at}
use litedram.Phy.Dfi.{Phase, DfiCmd, dfi_cmd}
use litedram.Phy.PulseTiming.{PulseTiming}
use litedram.Phy.Lpddr4.Sim.{Device, put, Half}
use litedram.Phy.Lpddr5.Commands.{
  special_mpc, special_mrr, special_nop, mpc_op, zqc_start, zqc_latch,
}
use litedram.Phy.Lpddr5.Sim.{Message, Burst, Chip, note, put_mr, wl, rl}
use litedram.Phy.Lpddr5.Chip.{some_active}

-- The chip as the controller sees it.
pub record View : Type 0 where
  pub device : Device
  pub log : List Message
  pub bursts : List Burst

unfoldable pub activate : (bank row : ℕ) → View → View
activate bank row v =
    let d = v.device in
    record v {
      device = record d {
        active_banks = put d.active_banks bank true;
        active_rows = put d.active_rows bank row;
      };
      log = note (d.active_banks bank) Message.act_on_active_bank v.log;
    }

-- A read or a write of the open row, with the bank closed after it or not, and its latency.
unfoldable pub access : (we masked close : Bool) (bank col : ℕ) → View → View
unfolding wl rl
access we masked close bank col v =
    let d = v.device in
    let bank_org = d.mode_regs 3 / 2 ^ 3 % 2 ^ 2 in
    record {
      device = record d {
        active_banks = if close then put d.active_banks bank false else d.active_banks;
      };
      log = note (we && ltb (wl d.mode_regs) 1) Message.wl_too_short (
          note (not we && ltb (rl d.mode_regs) 2) Message.rl_too_short (
            note (not (d.active_banks bank)) Message.cas_on_inactive_bank (
              note (masked && not ((bank_org == 0b00) || (bank_org == 0b10)))
                Message.bank_organization v.log)));
      bursts =
          record {
            we = we;
            masked = masked;
            burst32 = false;
            bank = bank;
            row = d.active_rows bank;
            col = col;
            latency =
                if we
                then (wl d.mode_regs + 2 ^ 5 - 1) % 2 ^ 5
                else (rl d.mode_regs + 2 ^ 5 - 2) % 2 ^ 5;
          }
          ∷ v.bursts;
    }

unfoldable pub precharge : (all : Bool) (bank : ℕ) → View → View
precharge all bank v =
    let d = v.device in
    record v {
      device = record d {
        active_banks = if all then (λ b. false) else put d.active_banks bank false;
      };
      log = note (not all && not (d.active_banks bank)) Message.pre_on_inactive_bank v.log;
    }

unfoldable pub refresh : View → View
refresh v = record v {
  log = note (some_active v.device.active_banks) Message.refresh_with_active_banks v.log;
}

unfoldable pub multipurpose : (op : ℕ) → View → View
multipurpose op v = record v {
  log = note (not ((op == zqc_start) || (op == zqc_latch))) Message.unsupported_mpc v.log;
}

unfoldable pub load_mode : (ma op : ℕ) → View → View
load_mode ma op v =
    let d = v.device in record v { device = record d { mode_regs = put_mr d.mode_regs ma op } }

-- Neither a mode register read nor a NOP has a handler.
unfoldable pub unexpected : View → View
unexpected v = record v { log = Message.unexpected_command ∷ v.log }

unfoldable pub special : (mpc_bank mrr_bank nop_bank : Bool) → Phase → View → View
unfolding multipurpose unexpected mpc_op
special true mrr_bank nop_bank p v = multipurpose (mpc_op p % 2 ^ 8) v
special false true nop_bank p v = unexpected v
special false false true p v = unexpected v
special false false false p v = v

-- A command, with its operands from the DFI's bank and address.
unfoldable pub on_command : (masked_write : Bool) → Phase → DfiCmd → View → View
unfolding activate access precharge refresh load_mode special
on_command masked_write p DfiCmd.nop v = v
on_command masked_write p DfiCmd.act v = activate (p.bank % 2 ^ 4) (p.address % 2 ^ 18) v
on_command masked_write p DfiCmd.rd v =
    access false false (bit_at p.address 10) (p.bank % 2 ^ 4) (p.address / 2 ^ 4 % 2 ^ 6) v
on_command masked_write p DfiCmd.wr v =
    access true masked_write (bit_at p.address 10) (p.bank % 2 ^ 4) (p.address / 2 ^ 4 % 2 ^ 6) v
on_command masked_write p DfiCmd.pre v = precharge (bit_at p.address 10) (p.bank % 2 ^ 4) v
on_command masked_write p DfiCmd.ref v = refresh v
on_command masked_write p DfiCmd.zqc v =
    special (p.bank == special_mpc) (p.bank == special_mrr) (p.bank == special_nop) p v
on_command masked_write p DfiCmd.mrs v = load_mode (p.bank % 2 ^ 7) (p.address % 2 ^ 8) v

-- A phase of the DFI, and several in order.
unfoldable pub effect : (masked_write : Bool) → Phase → View → View
unfolding on_command
effect masked_write p v = if p.cs_n == 0 then on_command masked_write p (dfi_cmd p) v else v

unfoldable pub effects : (masked_write : Bool) → List Phase → View → View
unfolding effect
effects masked_write [] v = v
effects masked_write (p ∷ ps) v = effects masked_write ps (effect masked_write p v)

-- The registers of the handlers between two commands.
pub record Registers : Type 0 where
  pub ma : List Bool
  pub bank : List Bool
  pub row1 : List Bool
  pub row2 : List Bool
  pub timer : PulseTiming

-- A chip with no command half done: the timer was not triggered in the cycle before.
abbrev pub at_rest : Registers → View → Chip
at_rest r v = record {
  mrw = record { half = Half.first; ma = r.ma };
  act = record {
    half = Half.first;
    bank = r.bank;
    row1 = r.row1;
    row2 = r.row2;
    timer = record r.timer { trigger_d = false };
  };
  device = v.device;
  log = v.log;
  bursts = v.bursts;
}

abbrev pub view : Chip → View
view c = record { device = c.device; log = c.log; bursts = c.bursts }
