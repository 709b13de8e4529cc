-- ===== src/Modules/Library/Ddr3More.antt =====
-- The modules of litedram/modules.py: DDR3 (the other chips).
use litedram.Base.{false, none, some, [], ◌∷◌}
use litedram.Modules.Build.{Module}
use litedram.Modules.Library.{ns, clocks, at_least, longer, technology, speedgrade}

abbrev pub k4b1g0446f : Module
k4b1g0446f = record {
  is_ddr4 = false;
  nbanks = 8;
  nrows = 16384;
  ncols = 1024;
  technology_timings =
      technology (ns 7812500) (longer 4 7500) (clocks 4) (longer 4 10000) (longer 64 80000);
  speedgrade_timings =
      (
        some 800,
        speedgrade (ns 15000) (ns 15000) (ns 15000) (clocks 120) (at_least 50000) (ns 37500),
      )
      ∷ (
        some 1066,
        speedgrade (ns 13125) (ns 13125) (ns 15000) (clocks 160) (at_least 50000) (ns 37500),
      )
      ∷ (
        some 1333,
        speedgrade (ns 13500) (ns 13500) (ns 15000) (clocks 200) (at_least 45000) (ns 36000),
      )
      ∷ (
        some 1600,
        speedgrade (ns 13750) (ns 13750) (ns 15000) (clocks 240) (at_least 40000) (ns 35000),
      )
      ∷ (none, speedgrade (ns 13750) (ns 13750) (ns 15000) (clocks 240) (at_least 40000) (ns 35000))
      ∷ [];
}

abbrev pub k4b2g1646f : Module
k4b2g1646f = record {
  is_ddr4 = false;
  nbanks = 8;
  nrows = 16384;
  ncols = 1024;
  technology_timings =
      technology (ns 7812500) (longer 4 7500) (clocks 4) (longer 6 10000) (longer 64 80000);
  speedgrade_timings =
      (
        some 800,
        speedgrade (ns 15000) (ns 15000) (ns 15000) (clocks 104) (at_least 50000) (ns 37500),
      )
      ∷ (
        some 1066,
        speedgrade (ns 13125) (ns 13125) (ns 15000) (clocks 139) (at_least 50000) (ns 37500),
      )
      ∷ (
        some 1333,
        speedgrade (ns 13500) (ns 13500) (ns 15000) (clocks 174) (at_least 45000) (ns 36000),
      )
      ∷ (
        some 1600,
        speedgrade (ns 13750) (ns 13750) (ns 15000) (clocks 208) (at_least 40000) (ns 35000),
      )
      ∷ (none, speedgrade (ns 13750) (ns 13750) (ns 15000) (clocks 208) (at_least 40000) (ns 35000))
      ∷ [];
}

abbrev pub h5tc4g63cfr : Module
h5tc4g63cfr = record {
  is_ddr4 = false;
  nbanks = 8;
  nrows = 32768;
  ncols = 1024;
  technology_timings =
      technology (ns 7812500) (longer 4 7500) (clocks 4) (longer 6 7500) (longer 64 80000);
  speedgrade_timings =
      (
        some 800,
        speedgrade (ns 15000) (ns 15000) (ns 15000) (at_least 260000) (at_least 50000) (ns 37500),
      )
      ∷ (
        none,
        speedgrade (ns 15000) (ns 15000) (ns 15000) (at_least 260000) (at_least 50000) (ns 37500),
      )
      ∷ [];
}

abbrev pub h5tq4g63cfr : Module
h5tq4g63cfr = record {
  is_ddr4 = false;
  nbanks = 8;
  nrows = 32768;
  ncols = 1024;
  technology_timings =
      technology (ns 7812500) (longer 4 7500) (clocks 4) (longer 6 7500) (longer 64 80000);
  speedgrade_timings =
      (
        some 1066,
        speedgrade (ns 13125) (ns 13125) (ns 15000) (clocks 139) (longer 27 50000) (ns 37500),
      )
      ∷ (
        some 1333,
        speedgrade (ns 13500) (ns 13500) (ns 15000) (clocks 174) (longer 30 45000) (ns 36000),
      )
      ∷ (
        some 1600,
        speedgrade (ns 13750) (ns 13750) (ns 15000) (clocks 208) (longer 32 40000) (ns 35000),
      )
      ∷ (
        some 1866,
        speedgrade (ns 13910) (ns 13910) (ns 15000) (clocks 243) (longer 33 36000) (ns 34000),
      )
      ∷ (
        none,
        speedgrade (ns 13750) (ns 13750) (ns 15000) (clocks 208) (longer 32 40000) (ns 35000),
      )
      ∷ [];
}

abbrev pub is43tr16128b : Module
is43tr16128b = record {
  is_ddr4 = false;
  nbanks = 8;
  nrows = 16384;
  ncols = 1024;
  technology_timings =
      technology (ns 7812500) (longer 4 7500) (clocks 4) (longer 6 6000) (longer 64 80000);
  speedgrade_timings =
      (
        some 1600,
        speedgrade (ns 13750) (ns 13750) (ns 15000) (at_least 160000) (at_least 40000) (ns 35000),
      )
      ∷ (
        none,
        speedgrade (ns 13750) (ns 13750) (ns 15000) (at_least 160000) (at_least 40000) (ns 35000),
      )
      ∷ [];
}

abbrev pub is43tr16256a : Module
is43tr16256a = record {
  is_ddr4 = false;
  nbanks = 8;
  nrows = 32768;
  ncols = 1024;
  technology_timings =
      technology (ns 7812500) (longer 4 7500) (clocks 4) (longer 6 6000) (longer 64 80000);
  speedgrade_timings =
      (
        some 1600,
        speedgrade (ns 13750) (ns 13750) (ns 15000) (at_least 260000) (at_least 30000) (ns 35000),
      )
      ∷ (
        none,
        speedgrade (ns 13750) (ns 13750) (ns 15000) (at_least 260000) (at_least 30000) (ns 35000),
      )
      ∷ [];
}

abbrev pub is43tr16512b : Module
is43tr16512b = record {
  is_ddr4 = false;
  nbanks = 8;
  nrows = 65536;
  ncols = 1024;
  technology_timings =
      technology (ns 7812500) (longer 4 7500) (clocks 4) (longer 6 10000) (longer 64 80000);
  speedgrade_timings =
      (
        some 800,
        speedgrade (ns 15000) (ns 15000) (ns 15000) (at_least 350000) (at_least 50000) (ns 37500),
      )
      ∷ (
        some 1066,
        speedgrade (ns 13125) (ns 13125) (ns 15000) (at_least 350000) (at_least 50000) (ns 37500),
      )
      ∷ (
        some 1333,
        speedgrade (ns 13500) (ns 13500) (ns 15000) (at_least 350000) (at_least 50000) (ns 36000),
      )
      ∷ (
        some 1600,
        speedgrade (ns 13750) (ns 13750) (ns 15000) (at_least 350000) (at_least 50000) (ns 35000),
      )
      ∷ (
        none,
        speedgrade (ns 13750) (ns 13750) (ns 15000) (at_least 350000) (at_least 50000) (ns 35000),
      )
      ∷ [];
}
