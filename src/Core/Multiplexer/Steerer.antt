-- ===== src/Core/Multiplexer/Steerer.antt =====
-- `_Steerer` of litedram/core/multiplexer.py: puts the selected commands on the phases of the DFI.
-- The rank decoder of migen is a parameter: the chip select of a rank, one bit for each rank.
pub mod Once
use litedram.Base.{
  ℕ, zero, suc, ◌+◌, ◌-◌, ◌/◌, ◌%◌, ◌^◌, Bool, true, false, not, ◌&&◌, Option, none, some, ◌==◌,
  if◌then◌else◌,
}
use litedram.Core.Multiplexer.Chooser.{Request}
use litedram.Core.Multiplexer.{
  Settings, Inputs, Multiplexer, State, Steer, sel, cmd_cmd, cmd_ready, req_cmd, req_ready,
}

-- What the steerer reads of a command.
pub record Command : Type 0 where
  pub valid : Bool
  pub ready : Bool
  pub a : ℕ
  pub ba : ℕ
  pub cas : Bool
  pub ras : Bool
  pub we : Bool
  pub is_read : Bool
  pub is_write : Bool

-- The sources but NOP, which has no `valid` and whose address and bank are 0.
pub record Sources : Type 0 where
  pub cmd : Command
  pub req : Command
  pub refresh : Command

abbrev pub source : Sources → Steer → Option Command
source c Steer.nop = none
source c Steer.cmd = some c.cmd
source c Steer.req = some c.req
source c Steer.refresh = some c.refresh

unfoldable pub valid_and : (Command → Bool) → Option Command → Bool
valid_and attr none = false
valid_and attr (some c) = (c.valid && c.ready) && attr c

abbrev address_of : Option Command → ℕ
address_of none = 0
address_of (some c) = c.a

abbrev bank_of : Option Command → ℕ
bank_of none = 0
bank_of (some c) = c.ba

-- The registers of a phase of the DFI that a command drives.
pub record Phase : Type 0 where
  pub cs_n : ℕ
  pub bank : ℕ
  pub address : ℕ
  pub cas_n : Bool
  pub ras_n : Bool
  pub we_n : Bool
  pub rddata_en : Bool
  pub wrdata_en : Bool

-- `rankbits` of the `ba_bits` of a bank's number choose the rank.
pub record Ranks : Type 0 where
  pub rankbits : ℕ
  pub ba_bits : ℕ

abbrev is_refresh : Steer → Bool
is_refresh Steer.refresh = true
is_refresh _ = false

unfoldable pub cs_n : (rank_decoder : ℕ → ℕ) → Ranks → ℕ → Steer → ℕ → ℕ
cs_n rank_decoder r i s ba =
    if r.rankbits == 0
    then 0
    else if (i == 0) && is_refresh s
    then 0
    else 2 ^ 2 ^ r.rankbits - 1 - rank_decoder (ba / 2 ^ (r.ba_bits - r.rankbits))

unfoldable pub bank : Ranks → ℕ → ℕ
bank r ba = if r.rankbits == 0 then ba else ba % 2 ^ (r.ba_bits - r.rankbits)

-- The registers of phase `i` after a cycle in which it was given the source `s`.
unfoldable pub phase_step : (rank_decoder : ℕ → ℕ) → Ranks → Sources → ℕ → Steer → Phase
unfolding valid_and cs_n bank
phase_step rank_decoder r c i s =
    let command = source c s in
    record {
      cs_n = cs_n rank_decoder r i s (bank_of command);
      bank = bank r (bank_of command);
      address = address_of command;
      cas_n = not (valid_and (λ (x : Command). x.cas) command);
      ras_n = not (valid_and (λ (x : Command). x.ras) command);
      we_n = not (valid_and (λ (x : Command). x.we) command);
      rddata_en = valid_and (λ (x : Command). x.is_read) command;
      wrdata_en = valid_and (λ (x : Command). x.is_write) command;
    }

-- The commands that `choose_cmd` and `choose_req` present in a cycle, and the refresher's.
unfoldable pub stream : (ready : Bool) → Request → Command
stream ready x = record {
  valid = x.valid;
  ready = ready;
  a = x.a;
  ba = x.ba;
  cas = x.cas;
  ras = x.ras;
  we = x.we;
  is_read = x.is_read;
  is_write = x.is_write;
}

unfoldable pub sources : Settings → Inputs → Multiplexer → Command → Sources
unfolding stream cmd_ready cmd_cmd req_ready req_cmd
sources g i s refresh = record {
  cmd = stream (cmd_ready g i s) (cmd_cmd g i s);
  req = stream (req_ready g i s) (req_cmd g i s);
  refresh = refresh;
}

-- The phase `n` of the DFI after a cycle of the multiplexer.
unfoldable pub dfi :
    (rank_decoder : ℕ → ℕ) → Settings → Ranks → Inputs → Multiplexer → Command → ℕ → Phase
dfi rank_decoder g r i s refresh n =
    phase_step rank_decoder r (sources g i s refresh) n (sel g s.fsm n)
