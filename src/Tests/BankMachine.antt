-- ===== src/Tests/BankMachine.antt =====
-- The bank machine on a stream of reads from one row.
use litedram.Base.{ℕ, zero, suc, ◌+◌, ◌*◌, ◌≡◌, refl, arith, true, false, some, replicate}
use litedram.Common.Txxd
use litedram.Core.BankMachine.{
  Settings, Inputs, reset, step, run, outputs, act, regular_act, row_hit, row_close, auto_precharge,
}
use litedram.Core.BankMachine.Slicer.{Geometry, row_of}
use litedram.Core.BankMachine.Bank.{Event, Legal, bank, event}
use litedram.Core.BankMachine.Bank.Protocol.{Widths, InRange, commands-Legal}

abbrev geometry : Geometry
geometry = record { rowbits = 13; colbits = 9; address_align = 3 }

abbrev settings : Settings
settings = record {
  geom = geometry;
  with_auto_precharge = true;
  cwl = 2;
  nphases = 2;
  twr = 2;
  tccd = 1;
  trp = 2;
  trcd = 2;
  trc = some 6;
  tras = some 4;
  twtp_width = 2;
  trc_width = 3;
  tras_width = 2;
}

abbrev read : Inputs
read = record {
  refresh_req = false;
  cmd_ready = true;
  buffer_valid = true;
  buffer_we = false;
  buffer_addr = 5 * 64 + 3;
  ahead_valid = false;
  ahead_addr = 0;
}

settings-Widths : Widths settings
settings-Widths = record { wtp = omega arith; rc = omega arith; ras = omega arith }

reads-InRange : (n : ℕ) → InRange settings (replicate n read)
unfolding row_of
reads-InRange zero = tt
reads-InRange (suc n) = (omega arith, reads-InRange n)

-- After the activate and tRCD the machine reads.
reads_row : event settings read (run settings (replicate 14 read)) ≡ Event.column false false
unfolding run reset step event outputs act regular_act row_hit row_close auto_precharge row_of
    Txxd.step Txxd.reset Txxd.count_step
reads_row = refl

commands-Legal_example :
    Legal settings
      (row_of geometry (5 * 64 + 3))
      (bank settings (replicate 14 read))
      (event settings read (run settings (replicate 14 read)))
commands-Legal_example =
    commands-Legal settings read (replicate 14 read) settings-Widths (reads-InRange 15)
