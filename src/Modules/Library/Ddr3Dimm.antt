-- ===== src/Modules/Library/Ddr3Dimm.antt =====
-- The modules of litedram/modules.py: DDR3 (SO-DIMM) and RPC.
use litedram.Base.{false, none, some, [], ◌∷◌}
use litedram.Modules.Build.{Module}
use litedram.Modules.Library.{ns, clocks, at_least, longer, technology, speedgrade}

abbrev pub mt8jtf12864 : Module
mt8jtf12864 = record {
  is_ddr4 = false;
  nbanks = 8;
  nrows = 16384;
  ncols = 1024;
  technology_timings =
      technology (ns 7812500) (longer 4 7500) (clocks 4) (longer 4 6000) (longer 64 80000);
  speedgrade_timings =
      (
        some 1066,
        speedgrade (ns 15000) (ns 15000) (ns 15000) (at_least 110000) (at_least 37500) (ns 37500),
      )
      ∷ (
        some 1333,
        speedgrade (ns 13125) (ns 13125) (ns 15000) (at_least 110000) (at_least 30000) (ns 36000),
      )
      ∷ (
        none,
        speedgrade (ns 13125) (ns 13125) (ns 15000) (at_least 110000) (at_least 30000) (ns 36000),
      )
      ∷ [];
}

abbrev pub mt8ktf51264 : Module
mt8ktf51264 = record {
  is_ddr4 = false;
  nbanks = 8;
  nrows = 65536;
  ncols = 1024;
  technology_timings =
      technology (ns 7812500) (longer 4 7500) (clocks 4) (longer 4 6000) (longer 64 80000);
  speedgrade_timings =
      (
        some 800,
        speedgrade (ns 15000) (ns 15000) (ns 15000) (at_least 260000) (at_least 40000) (ns 37500),
      )
      ∷ (
        some 1066,
        speedgrade (ns 15000) (ns 15000) (ns 15000) (at_least 260000) (at_least 40000) (ns 37500),
      )
      ∷ (
        some 1333,
        speedgrade (ns 13125) (ns 13125) (ns 15000) (at_least 260000) (at_least 30000) (ns 36000),
      )
      ∷ (
        some 1600,
        speedgrade (ns 13125) (ns 13125) (ns 15000) (at_least 260000) (at_least 30000) (ns 35000),
      )
      ∷ (
        some 1866,
        speedgrade (ns 13125) (ns 13125) (ns 15000) (at_least 260000) (at_least 27000) (ns 34000),
      )
      ∷ (
        none,
        speedgrade (ns 13125) (ns 13125) (ns 15000) (at_least 260000) (at_least 27000) (ns 34000),
      )
      ∷ [];
}

abbrev pub mt18ksf1g72hz : Module
mt18ksf1g72hz = record {
  is_ddr4 = false;
  nbanks = 8;
  nrows = 65536;
  ncols = 1024;
  technology_timings =
      technology (ns 7812500) (longer 4 7500) (clocks 4) (longer 4 6000) (longer 64 80000);
  speedgrade_timings =
      (
        some 1066,
        speedgrade (ns 15000) (ns 15000) (ns 15000) (at_least 260000) (at_least 40000) (ns 37500),
      )
      ∷ (
        some 1333,
        speedgrade (ns 13125) (ns 13125) (ns 15000) (at_least 260000) (at_least 30000) (ns 36000),
      )
      ∷ (
        some 1600,
        speedgrade (ns 13125) (ns 13125) (ns 15000) (at_least 260000) (at_least 30000) (ns 35000),
      )
      ∷ (
        none,
        speedgrade (ns 13125) (ns 13125) (ns 15000) (at_least 260000) (at_least 30000) (ns 35000),
      )
      ∷ [];
}

abbrev pub as4c256m16d3a : Module
as4c256m16d3a = record {
  is_ddr4 = false;
  nbanks = 8;
  nrows = 32768;
  ncols = 1024;
  technology_timings =
      technology (ns 7812500) (longer 4 7500) (clocks 4) (longer 6 7500) (longer 64 80000);
  speedgrade_timings =
      (
        some 1600,
        speedgrade (ns 13750) (ns 13750) (ns 15000) (at_least 260000) (at_least 40000) (ns 35000),
      )
      ∷ (
        none,
        speedgrade (ns 13750) (ns 13750) (ns 15000) (at_least 260000) (at_least 40000) (ns 35000),
      )
      ∷ [];
}

abbrev pub as4c256m16d3c : Module
as4c256m16d3c = record {
  is_ddr4 = false;
  nbanks = 8;
  nrows = 32768;
  ncols = 1024;
  technology_timings =
      technology (ns 7812500) (longer 4 7500) (clocks 4) (longer 6 7500) (longer 64 80000);
  speedgrade_timings =
      (
        some 1600,
        speedgrade (ns 13750) (ns 13750) (ns 15000) (at_least 260000) (at_least 40000) (ns 35000),
      )
      ∷ (
        some 1866,
        speedgrade (ns 13910) (ns 13910) (ns 15000) (at_least 260000) (at_least 35000) (ns 34000),
      )
      ∷ (
        some 2133,
        speedgrade (ns 13090) (ns 13090) (ns 15000) (at_least 260000) (at_least 35000) (ns 33000),
      )
      ∷ (
        none,
        speedgrade (ns 13750) (ns 13750) (ns 15000) (at_least 260000) (at_least 40000) (ns 35000),
      )
      ∷ [];
}

abbrev pub mt16ktf1g64hz : Module
mt16ktf1g64hz = record {
  is_ddr4 = false;
  nbanks = 8;
  nrows = 65536;
  ncols = 1024;
  technology_timings =
      technology (ns 7812500) (longer 4 7500) (clocks 4) (longer 4 6000) (longer 64 80000);
  speedgrade_timings =
      (
        some 800,
        speedgrade (ns 15000) (ns 15000) (ns 15000) (at_least 260000) (at_least 40000) (ns 37500),
      )
      ∷ (
        some 1066,
        speedgrade (ns 15000) (ns 15000) (ns 15000) (at_least 260000) (at_least 40000) (ns 37500),
      )
      ∷ (
        some 1333,
        speedgrade (ns 15000) (ns 15000) (ns 15000) (at_least 260000) (at_least 30000) (ns 36000),
      )
      ∷ (
        some 1600,
        speedgrade (ns 13125) (ns 13125) (ns 15000) (at_least 260000) (at_least 30000) (ns 35000),
      )
      ∷ (
        some 1866,
        speedgrade (ns 13125) (ns 13125) (ns 15000) (at_least 260000) (at_least 27000) (ns 34000),
      )
      ∷ (
        none,
        speedgrade (ns 13125) (ns 13125) (ns 15000) (at_least 260000) (at_least 27000) (ns 34000),
      )
      ∷ [];
}

abbrev pub em6ga16l : Module
em6ga16l = record {
  is_ddr4 = false;
  nbanks = 4;
  nrows = 4096;
  ncols = 1024;
  technology_timings =
      technology (ns 7812500) (clocks 13) (clocks 29) (at_least 7500) (at_least 90000);
  speedgrade_timings =
      (some 1600, speedgrade (ns 13750) (ns 13750) (ns 20000) (clocks 300) none (ns 35000))
      ∷ (some 1866, speedgrade (ns 13910) (ns 13910) (ns 20000) (clocks 300) none (ns 34000))
      ∷ (none, speedgrade (ns 13750) (ns 13750) (ns 20000) (clocks 300) none (ns 35000))
      ∷ [];
}
