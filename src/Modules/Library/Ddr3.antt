-- ===== src/Modules/Library/Ddr3.antt =====
-- The modules of litedram/modules.py: DDR3 (the chips up to MT41J512M16).
use litedram.Base.{false, none, some, [], ◌∷◌}
use litedram.Modules.Build.{Module}
use litedram.Modules.Library.{ns, clocks, at_least, longer, technology, speedgrade}

abbrev pub as4c128m16 : Module
as4c128m16 = record {
  is_ddr4 = false;
  nbanks = 8;
  nrows = 16384;
  ncols = 1024;
  technology_timings =
      technology (ns 7812500) (longer 4 7500) (clocks 4) (longer 6 6000) (longer 64 80000);
  speedgrade_timings =
      (
        some 1600,
        speedgrade (ns 13750) (ns 13750) (ns 13750) (clocks 160) (at_least 40000) (ns 35000),
      )
      ∷ (none, speedgrade (ns 13750) (ns 13750) (ns 13750) (clocks 160) (at_least 40000) (ns 35000))
      ∷ [];
}

abbrev pub mt41k64m16 : Module
mt41k64m16 = record {
  is_ddr4 = false;
  nbanks = 8;
  nrows = 8192;
  ncols = 1024;
  technology_timings =
      technology (ns 7812500) (longer 4 7500) (clocks 4) (longer 6 10000) (longer 64 80000);
  speedgrade_timings =
      (
        some 800,
        speedgrade (ns 13100) (ns 13100) (ns 13100) (clocks 64) (at_least 50000) (ns 37500),
      )
      ∷ (
        some 1066,
        speedgrade (ns 13100) (ns 13100) (ns 13100) (clocks 86) (at_least 50000) (ns 37500),
      )
      ∷ (
        some 1333,
        speedgrade (ns 13500) (ns 13500) (ns 13500) (clocks 107) (at_least 45000) (ns 36000),
      )
      ∷ (
        some 1600,
        speedgrade (ns 13750) (ns 13750) (ns 13750) (clocks 128) (at_least 40000) (ns 35000),
      )
      ∷ (none, speedgrade (ns 13750) (ns 13750) (ns 13750) (clocks 128) (at_least 40000) (ns 35000))
      ∷ [];
}

abbrev pub mt41j256m8 : Module
mt41j256m8 = record {
  is_ddr4 = false;
  nbanks = 8;
  nrows = 32768;
  ncols = 1024;
  technology_timings =
      technology (ns 7812500) (longer 4 7500) (clocks 4) (longer 4 6000) (longer 64 80000);
  speedgrade_timings =
      (
        some 800,
        speedgrade (ns 13100) (ns 13100) (ns 15000) (clocks 64) (at_least 50000) (ns 37500),
      )
      ∷ (
        some 1066,
        speedgrade (ns 13100) (ns 13100) (ns 15000) (clocks 86) (at_least 50000) (ns 37500),
      )
      ∷ (
        some 1333,
        speedgrade (ns 13500) (ns 13500) (ns 15000) (clocks 107) (at_least 45000) (ns 36000),
      )
      ∷ (none, speedgrade (ns 13500) (ns 13500) (ns 15000) (clocks 107) (at_least 45000) (ns 36000))
      ∷ [];
}

abbrev pub mt41k256m8 : Module
mt41k256m8 = record {
  is_ddr4 = false;
  nbanks = 8;
  nrows = 32768;
  ncols = 1024;
  technology_timings =
      technology (ns 7812500) (longer 4 7500) (clocks 4) (longer 4 6000) (longer 64 80000);
  speedgrade_timings =
      (
        some 1600,
        speedgrade (ns 13750) (ns 13750) (ns 15000) (clocks 128) (at_least 40000) (ns 35000),
      )
      ∷ (none, speedgrade (ns 13750) (ns 13750) (ns 15000) (clocks 128) (at_least 40000) (ns 35000))
      ∷ [];
}

abbrev pub mt41j128m16 : Module
mt41j128m16 = record {
  is_ddr4 = false;
  nbanks = 8;
  nrows = 16384;
  ncols = 1024;
  technology_timings =
      technology (ns 7812500) (longer 4 7500) (clocks 4) (longer 6 10000) (longer 64 80000);
  speedgrade_timings =
      (
        some 800,
        speedgrade (ns 13100) (ns 13100) (ns 13100) (clocks 64) (at_least 50000) (ns 37500),
      )
      ∷ (
        some 1066,
        speedgrade (ns 13100) (ns 13100) (ns 13100) (clocks 86) (at_least 50000) (ns 37500),
      )
      ∷ (
        some 1333,
        speedgrade (ns 13500) (ns 13500) (ns 13500) (clocks 107) (at_least 45000) (ns 36000),
      )
      ∷ (
        some 1600,
        speedgrade (ns 13750) (ns 13750) (ns 13750) (clocks 128) (at_least 40000) (ns 35000),
      )
      ∷ (none, speedgrade (ns 13750) (ns 13750) (ns 13750) (clocks 128) (at_least 40000) (ns 35000))
      ∷ [];
}

abbrev pub imd128m16r39cg8gnf : Module
imd128m16r39cg8gnf = record {
  is_ddr4 = false;
  nbanks = 8;
  nrows = 16384;
  ncols = 1024;
  technology_timings =
      technology (ns 7812500) (longer 4 7500) (clocks 4) (longer 4 7500) (longer 64 80000);
  speedgrade_timings =
      (
        some 1600,
        speedgrade (ns 13750) (ns 13750) (ns 15000) (at_least 160000) (at_least 40000) (ns 35000),
      )
      ∷ (
        none,
        speedgrade (ns 13750) (ns 13750) (ns 15000) (at_least 160000) (at_least 40000) (ns 35000),
      )
      ∷ [];
}

abbrev pub mt41j256m16 : Module
mt41j256m16 = record {
  is_ddr4 = false;
  nbanks = 8;
  nrows = 32768;
  ncols = 1024;
  technology_timings =
      technology (ns 7812500) (longer 4 7500) (clocks 4) (longer 6 10000) (longer 64 80000);
  speedgrade_timings =
      (
        some 800,
        speedgrade (ns 13100) (ns 13100) (ns 13100) (clocks 139) (at_least 50000) (ns 37500),
      )
      ∷ (
        some 1066,
        speedgrade (ns 13100) (ns 13100) (ns 13100) (clocks 138) (at_least 50000) (ns 37500),
      )
      ∷ (
        some 1333,
        speedgrade (ns 13500) (ns 13500) (ns 13500) (clocks 174) (at_least 45000) (ns 36000),
      )
      ∷ (
        some 1600,
        speedgrade (ns 13750) (ns 13750) (ns 13750) (clocks 208) (at_least 40000) (ns 35000),
      )
      ∷ (none, speedgrade (ns 13750) (ns 13750) (ns 13750) (clocks 208) (at_least 40000) (ns 35000))
      ∷ [];
}

abbrev pub mt41j512m16 : Module
mt41j512m16 = record {
  is_ddr4 = false;
  nbanks = 8;
  nrows = 65536;
  ncols = 1024;
  technology_timings =
      technology (ns 7812500) (longer 4 7500) (clocks 4) (longer 6 10000) (longer 64 80000);
  speedgrade_timings =
      (
        some 1600,
        speedgrade (ns 13750) (ns 13750) (ns 13750) (clocks 280) (at_least 40000) (ns 39000),
      )
      ∷ (none, speedgrade (ns 13750) (ns 13750) (ns 13750) (clocks 280) (at_least 40000) (ns 39000))
      ∷ [];
}
