-- ===== src/Modules/Library/Ddr.antt =====
-- The modules of litedram/modules.py: DDR, LPDDR and DDR2.
use litedram.Base.{false, none, [], ◌∷◌}
use litedram.Modules.Build.{Module}
use litedram.Modules.Library.{ns, clocks, at_least, technology, speedgrade}

abbrev pub mt46v32m16 : Module
mt46v32m16 = record {
  is_ddr4 = false;
  nbanks = 4;
  nrows = 8192;
  ncols = 1024;
  technology_timings = technology (ns 7812500) (clocks 2) (clocks 1) none none;
  speedgrade_timings =
      (none, speedgrade (ns 15000) (ns 15000) (ns 15000) (at_least 70000) none none) ∷ [];
}

abbrev pub mt46h32m16 : Module
mt46h32m16 = record {
  is_ddr4 = false;
  nbanks = 4;
  nrows = 8192;
  ncols = 1024;
  technology_timings = technology (ns 7812500) (clocks 2) (clocks 1) none none;
  speedgrade_timings =
      (none, speedgrade (ns 15000) (ns 15000) (ns 15000) (at_least 72000) none none) ∷ [];
}

abbrev pub mt46h64m16 : Module
mt46h64m16 = record {
  is_ddr4 = false;
  nbanks = 4;
  nrows = 16384;
  ncols = 1024;
  technology_timings = technology (ns 7812500) (clocks 2) (clocks 1) none none;
  speedgrade_timings =
      (none, speedgrade (ns 15000) (ns 15000) (ns 15000) (at_least 72000) none none) ∷ [];
}

abbrev pub mt46h128m16 : Module
mt46h128m16 = record {
  is_ddr4 = false;
  nbanks = 4;
  nrows = 16384;
  ncols = 2048;
  technology_timings = technology (ns 7812500) (clocks 2) (clocks 1) none none;
  speedgrade_timings =
      (none, speedgrade (ns 15000) (ns 15000) (ns 15000) (at_least 72000) none none) ∷ [];
}

abbrev pub mt46h32m32 : Module
mt46h32m32 = record {
  is_ddr4 = false;
  nbanks = 4;
  nrows = 8192;
  ncols = 1024;
  technology_timings = technology (ns 7812500) (clocks 2) (clocks 1) none none;
  speedgrade_timings =
      (none, speedgrade (ns 15000) (ns 15000) (ns 15000) (at_least 72000) none none) ∷ [];
}

abbrev pub mt47h128m8 : Module
mt47h128m8 = record {
  is_ddr4 = false;
  nbanks = 8;
  nrows = 16384;
  ncols = 1024;
  technology_timings = technology (ns 7812500) (at_least 7500) (clocks 2) none none;
  speedgrade_timings =
      (none, speedgrade (ns 15000) (ns 15000) (ns 15000) (at_least 127500) none none) ∷ [];
}

abbrev pub mt47h32m16 : Module
mt47h32m16 = record {
  is_ddr4 = false;
  nbanks = 4;
  nrows = 8192;
  ncols = 1024;
  technology_timings = technology (ns 7812500) (at_least 7500) (clocks 2) none none;
  speedgrade_timings =
      (none, speedgrade (ns 15000) (ns 15000) (ns 15000) (at_least 127500) none none) ∷ [];
}

abbrev pub mt47h64m16 : Module
mt47h64m16 = record {
  is_ddr4 = false;
  nbanks = 8;
  nrows = 8192;
  ncols = 1024;
  technology_timings = technology (ns 7812500) (at_least 7500) (clocks 2) none none;
  speedgrade_timings =
      (none, speedgrade (ns 15000) (ns 15000) (ns 15000) (at_least 127500) none none) ∷ [];
}

abbrev pub p3r1ge4jgf : Module
p3r1ge4jgf = record {
  is_ddr4 = false;
  nbanks = 8;
  nrows = 8192;
  ncols = 1024;
  technology_timings = technology (ns 7812500) (at_least 7500) (clocks 2) none none;
  speedgrade_timings =
      (none, speedgrade (ns 12500) (ns 12500) (ns 15000) (at_least 127500) none none) ∷ [];
}
