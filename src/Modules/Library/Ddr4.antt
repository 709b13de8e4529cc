-- ===== src/Modules/Library/Ddr4.antt =====
-- The modules of litedram/modules.py: DDR4 (chips).
use litedram.Base.{true, none, some, [], ◌∷◌}
use litedram.Modules.Build.{Module}
use litedram.Modules.Library.{ns, clocks, at_least, longer, refresh, technology, speedgrade}

abbrev pub edy4016a : Module
edy4016a = record {
  is_ddr4 = true;
  nbanks = 8;
  nrows = 32768;
  ncols = 1024;
  technology_timings =
      technology (refresh (ns 7812500) (ns 3906250) (ns 1953125)) (longer 4 7500) (clocks 4)
        (longer 4 4900) (longer 128 80000);
  speedgrade_timings =
      (
        some 2400,
        speedgrade (ns 13320) (ns 13320) (ns 15000)
            (refresh (at_least 260000) (at_least 160000) (at_least 110000)) (longer 28 30000)
            (ns 32000),
      )
      ∷ (
        none,
        speedgrade (ns 13320) (ns 13320) (ns 15000)
            (refresh (at_least 260000) (at_least 160000) (at_least 110000)) (longer 28 30000)
            (ns 32000),
      )
      ∷ [];
}

abbrev pub mt40a1g8 : Module
mt40a1g8 = record {
  is_ddr4 = true;
  nbanks = 16;
  nrows = 65536;
  ncols = 1024;
  technology_timings =
      technology (refresh (ns 7812500) (ns 3906250) (ns 1953125)) (longer 4 7500) (clocks 4)
        (longer 4 6400) (longer 128 80000);
  speedgrade_timings =
      (
        some 2400,
        speedgrade (ns 13320) (ns 13320) (ns 15000)
            (refresh (at_least 350000) (at_least 260000) (at_least 160000)) (longer 20 25000)
            (ns 32000),
      )
      ∷ (
        some 2666,
        speedgrade (ns 13500) (ns 13500) (ns 15000)
            (refresh (at_least 350000) (at_least 260000) (at_least 160000)) (longer 20 21000)
            (ns 32000),
      )
      ∷ (
        none,
        speedgrade (ns 13320) (ns 13320) (ns 15000)
            (refresh (at_least 350000) (at_least 260000) (at_least 160000)) (longer 20 25000)
            (ns 32000),
      )
      ∷ [];
}

abbrev pub mt40a2g8 : Module
mt40a2g8 = record {
  is_ddr4 = true;
  nbanks = 16;
  nrows = 131072;
  ncols = 1024;
  technology_timings =
      technology (refresh (ns 7812500) (ns 3906250) (ns 1953125)) (longer 4 7500) (clocks 4)
        (longer 4 6400) (longer 128 80000);
  speedgrade_timings =
      (
        some 2400,
        speedgrade (ns 13320) (ns 13320) (ns 15000)
            (refresh (at_least 350000) (at_least 260000) (at_least 160000)) (longer 20 25000)
            (ns 32000),
      )
      ∷ (
        some 2666,
        speedgrade (ns 13500) (ns 13500) (ns 15000)
            (refresh (at_least 350000) (at_least 260000) (at_least 160000)) (longer 20 21000)
            (ns 32000),
      )
      ∷ (
        none,
        speedgrade (ns 13320) (ns 13320) (ns 15000)
            (refresh (at_least 350000) (at_least 260000) (at_least 160000)) (longer 20 25000)
            (ns 32000),
      )
      ∷ [];
}

abbrev pub mt40a256m16 : Module
mt40a256m16 = record {
  is_ddr4 = true;
  nbanks = 8;
  nrows = 32768;
  ncols = 1024;
  technology_timings =
      technology (refresh (ns 7812500) (ns 3906250) (ns 1953125)) (longer 4 7500) (clocks 4)
        (longer 4 4900) (longer 128 80000);
  speedgrade_timings =
      (
        some 2400,
        speedgrade (ns 13320) (ns 13320) (ns 15000)
            (refresh (at_least 260000) (at_least 160000) (at_least 110000)) (longer 28 35000)
            (ns 32000),
      )
      ∷ (
        none,
        speedgrade (ns 13320) (ns 13320) (ns 15000)
            (refresh (at_least 260000) (at_least 160000) (at_least 110000)) (longer 28 35000)
            (ns 32000),
      )
      ∷ [];
}

abbrev pub mt40a512m8 : Module
mt40a512m8 = record {
  is_ddr4 = true;
  nbanks = 16;
  nrows = 32768;
  ncols = 1024;
  technology_timings =
      technology (refresh (ns 7812500) (ns 3906250) (ns 1953125)) (longer 4 7500) (clocks 4)
        (longer 4 4900) (longer 128 80000);
  speedgrade_timings =
      (
        some 2400,
        speedgrade (ns 13320) (ns 13320) (ns 15000)
            (refresh (at_least 350000) (at_least 260000) (at_least 160000)) (longer 20 25000)
            (ns 32000),
      )
      ∷ (
        some 2666,
        speedgrade (ns 13500) (ns 13500) (ns 15000)
            (refresh (at_least 350000) (at_least 260000) (at_least 160000)) (longer 20 21000)
            (ns 32000),
      )
      ∷ (
        none,
        speedgrade (ns 13320) (ns 13320) (ns 15000)
            (refresh (at_least 350000) (at_least 260000) (at_least 160000)) (longer 20 25000)
            (ns 32000),
      )
      ∷ [];
}

abbrev pub mt40a512m16 : Module
mt40a512m16 = record {
  is_ddr4 = true;
  nbanks = 8;
  nrows = 65536;
  ncols = 1024;
  technology_timings =
      technology (refresh (ns 7812500) (ns 3906250) (ns 1953125)) (longer 4 7500) (clocks 4)
        (longer 4 4900) (longer 128 80000);
  speedgrade_timings =
      (
        some 2400,
        speedgrade (ns 13320) (ns 13320) (ns 15000)
            (refresh (at_least 350000) (at_least 260000) (at_least 160000)) (longer 28 25000)
            (ns 32000),
      )
      ∷ (
        none,
        speedgrade (ns 13320) (ns 13320) (ns 15000)
            (refresh (at_least 350000) (at_least 260000) (at_least 160000)) (longer 28 25000)
            (ns 32000),
      )
      ∷ [];
}
