-- ===== src/Modules/Library/Ddr4Dimm.antt =====
-- The modules of litedram/modules.py: DDR4 (SO-DIMM and RDIMM) and LPDDR4.
use litedram.Base.{true, false, none, some, [], ◌∷◌}
use litedram.Modules.Build.{Module}
use litedram.Modules.Library.{ns, clocks, at_least, longer, refresh, technology, speedgrade}

abbrev pub kvr21se15s84 : Module
kvr21se15s84 = record {
  is_ddr4 = true;
  nbanks = 16;
  nrows = 32768;
  ncols = 1024;
  technology_timings =
      technology (refresh (ns 7812500) (ns 3906250) (ns 1953125)) (longer 4 7500) (clocks 4)
        (longer 4 4900) (longer 128 80000);
  speedgrade_timings =
      (
        some 2133,
        speedgrade (ns 13500) (ns 13500) (ns 15000)
            (refresh (at_least 350000) (at_least 260000) (at_least 160000)) (longer 20 25000)
            (ns 33000),
      )
      ∷ (
        none,
        speedgrade (ns 13500) (ns 13500) (ns 15000)
            (refresh (at_least 350000) (at_least 260000) (at_least 160000)) (longer 20 25000)
            (ns 33000),
      )
      ∷ [];
}

abbrev pub mta4atf51264hz : Module
mta4atf51264hz = record {
  is_ddr4 = true;
  nbanks = 8;
  nrows = 65536;
  ncols = 1024;
  technology_timings =
      technology (refresh (ns 7812500) (ns 3906250) (ns 1953125)) (longer 4 7500) (clocks 4)
        (longer 4 4900) (longer 128 80000);
  speedgrade_timings =
      (
        some 2133,
        speedgrade (ns 13500) (ns 13500) (ns 15000)
            (refresh (at_least 350000) (at_least 260000) (at_least 160000)) (longer 28 25000)
            (ns 33000),
      )
      ∷ (
        none,
        speedgrade (ns 13500) (ns 13500) (ns 15000)
            (refresh (at_least 350000) (at_least 260000) (at_least 160000)) (longer 28 25000)
            (ns 33000),
      )
      ∷ [];
}

abbrev pub mta18asf2g72pz : Module
mta18asf2g72pz = record {
  is_ddr4 = true;
  nbanks = 16;
  nrows = 131072;
  ncols = 1024;
  technology_timings =
      technology (refresh (ns 7812500) (ns 3906250) (ns 1953125)) (longer 4 7500) (clocks 4)
        (longer 4 4900) (longer 128 80000);
  speedgrade_timings =
      (
        some 2400,
        speedgrade (ns 14160) (ns 14160) (ns 15000)
            (refresh (at_least 350000) (at_least 260000) (at_least 160000)) (longer 20 25000)
            (ns 32000),
      )
      ∷ (
        some 2666,
        speedgrade (ns 14250) (ns 14250) (ns 15000)
            (refresh (at_least 350000) (at_least 260000) (at_least 160000)) (longer 20 25000)
            (ns 32000),
      )
      ∷ (
        some 2933,
        speedgrade (ns 14320) (ns 14320) (ns 15000)
            (refresh (at_least 350000) (at_least 260000) (at_least 160000)) (longer 20 25000)
            (ns 32000),
      )
      ∷ (
        some 3200,
        speedgrade (ns 13750) (ns 13750) (ns 15000)
            (refresh (at_least 350000) (at_least 260000) (at_least 160000)) (longer 20 25000)
            (ns 32000),
      )
      ∷ (
        none,
        speedgrade (ns 14160) (ns 14160) (ns 15000)
            (refresh (at_least 350000) (at_least 260000) (at_least 160000)) (longer 20 25000)
            (ns 32000),
      )
      ∷ [];
}

abbrev pub hma82gr7djr4n : Module
hma82gr7djr4n = record {
  is_ddr4 = true;
  nbanks = 16;
  nrows = 131072;
  ncols = 1024;
  technology_timings =
      technology (refresh (ns 7812500) (ns 3906250) (ns 1953125)) (longer 4 7500) (longer 4 5000)
        (longer 4 4900) (longer 128 80000);
  speedgrade_timings =
      (
        some 3200,
        speedgrade (ns 13750) (ns 13750) (ns 15000)
            (refresh (at_least 350000) (at_least 260000) (at_least 160000)) (longer 16 10000)
            (ns 32000),
      )
      ∷ (
        none,
        speedgrade (ns 13750) (ns 13750) (ns 15000)
            (refresh (at_least 350000) (at_least 260000) (at_least 160000)) (longer 16 10000)
            (ns 32000),
      )
      ∷ [];
}

abbrev pub m393a2k40db3 : Module
m393a2k40db3 = record {
  is_ddr4 = true;
  nbanks = 16;
  nrows = 131072;
  ncols = 1024;
  technology_timings =
      technology (refresh (ns 7812500) (ns 3906250) (ns 1953125)) (longer 4 7500) (longer 4 5000)
        (longer 4 4900) (longer 128 80000);
  speedgrade_timings =
      (
        some 3200,
        speedgrade (ns 13750) (ns 13750) (ns 15000)
            (refresh (at_least 350000) (at_least 260000) (at_least 160000)) (longer 16 10000)
            (ns 32000),
      )
      ∷ (
        none,
        speedgrade (ns 13750) (ns 13750) (ns 15000)
            (refresh (at_least 350000) (at_least 260000) (at_least 160000)) (longer 16 10000)
            (ns 32000),
      )
      ∷ [];
}

abbrev pub mt53e256m16d1 : Module
mt53e256m16d1 = record {
  is_ddr4 = false;
  nbanks = 8;
  nrows = 32768;
  ncols = 1024;
  technology_timings = technology (ns 3906250) (longer 8 10000) (clocks 32) (longer 4 10000) none;
  speedgrade_timings =
      (
        some 1866,
        speedgrade (longer 3 21000) (longer 4 18000) (longer 4 18000) (at_least 180000)
            (longer 32 40000) (longer 3 42000),
      )
      ∷ (
        none,
        speedgrade (longer 3 21000) (longer 4 18000) (longer 4 18000) (at_least 180000)
            (longer 32 40000) (longer 3 42000),
      )
      ∷ [];
}
