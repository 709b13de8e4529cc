-- ===== src/Modules/Library/Sdr.antt =====
-- The modules of litedram/modules.py: SDR.
use litedram.Base.{false, none, [], ◌∷◌}
use litedram.Modules.Build.{Module}
use litedram.Modules.Library.{ns, clocks, at_least, longer, technology, speedgrade}

abbrev pub is42s16160 : Module
is42s16160 = record {
  is_ddr4 = false;
  nbanks = 4;
  nrows = 8192;
  ncols = 512;
  technology_timings = technology (ns 7812500) (clocks 2) (clocks 1) none none;
  speedgrade_timings =
      (none, speedgrade (ns 20000) (ns 20000) (ns 20000) (at_least 70000) none none) ∷ [];
}

abbrev pub is42s16320 : Module
is42s16320 = record {
  is_ddr4 = false;
  nbanks = 4;
  nrows = 8192;
  ncols = 1024;
  technology_timings = technology (ns 7812500) (clocks 2) (clocks 1) none none;
  speedgrade_timings =
      (none, speedgrade (ns 20000) (ns 20000) (ns 20000) (at_least 70000) none none) ∷ [];
}

abbrev pub is42s32800j6 : Module
is42s32800j6 = record {
  is_ddr4 = false;
  nbanks = 4;
  nrows = 4096;
  ncols = 512;
  technology_timings = technology (ns 7812500) (clocks 2) (clocks 1) (at_least 12000) none;
  speedgrade_timings =
      (none, speedgrade (ns 3000) (ns 3000) (ns 12000) (at_least 60000) none (ns 42000)) ∷ [];
}

abbrev pub is42vm32160g : Module
is42vm32160g = record {
  is_ddr4 = false;
  nbanks = 4;
  nrows = 8192;
  ncols = 512;
  technology_timings = technology (ns 7812500) (clocks 2) (clocks 1) (clocks 12) none;
  speedgrade_timings =
      (none, speedgrade (ns 18000) (ns 18000) (ns 15000) (at_least 80000) none (ns 42000)) ∷ [];
}

abbrev pub mt48lc4m16 : Module
mt48lc4m16 = record {
  is_ddr4 = false;
  nbanks = 4;
  nrows = 4096;
  ncols = 256;
  technology_timings = technology (ns 7812500) (clocks 2) (clocks 1) none none;
  speedgrade_timings =
      (none, speedgrade (ns 15000) (ns 15000) (ns 14000) (at_least 66000) none none) ∷ [];
}

abbrev pub hy57v641620ftp : Module
hy57v641620ftp = record {
  is_ddr4 = false;
  nbanks = 4;
  nrows = 4096;
  ncols = 256;
  technology_timings = technology (ns 15625000) (clocks 2) (clocks 1) (at_least 14000) none;
  speedgrade_timings =
      (none, speedgrade (ns 21000) (ns 21000) (clocks 2) (at_least 63000) none (ns 42000)) ∷ [];
}

abbrev pub mt48lc16m16 : Module
mt48lc16m16 = record {
  is_ddr4 = false;
  nbanks = 4;
  nrows = 8192;
  ncols = 512;
  technology_timings = technology (ns 7812500) (clocks 2) (clocks 1) (at_least 15000) none;
  speedgrade_timings =
      (none, speedgrade (ns 20000) (ns 20000) (ns 15000) (at_least 66000) none (ns 44000)) ∷ [];
}

abbrev pub mt48lc32m8 : Module
mt48lc32m8 = record {
  is_ddr4 = false;
  nbanks = 4;
  nrows = 8192;
  ncols = 1024;
  technology_timings = technology (ns 7812500) (clocks 2) (clocks 1) (at_least 15000) none;
  speedgrade_timings =
      (none, speedgrade (ns 20000) (ns 20000) (ns 15000) (at_least 66000) none (ns 44000)) ∷ [];
}

abbrev pub as4c4m16 : Module
as4c4m16 = record {
  is_ddr4 = false;
  nbanks = 4;
  nrows = 4096;
  ncols = 256;
  technology_timings = technology (ns 15625000) (clocks 2) (clocks 1) (at_least 14000) none;
  speedgrade_timings =
      (none, speedgrade (ns 22000) (ns 21000) (ns 20000) (at_least 63000) none (ns 42000)) ∷ [];
}

abbrev pub as4c16m16 : Module
as4c16m16 = record {
  is_ddr4 = false;
  nbanks = 4;
  nrows = 8192;
  ncols = 512;
  technology_timings = technology (ns 7812500) (clocks 2) (clocks 1) none none;
  speedgrade_timings =
      (none, speedgrade (ns 18000) (ns 18000) (ns 12000) (at_least 60000) none none) ∷ [];
}

abbrev pub as4c32m16 : Module
as4c32m16 = record {
  is_ddr4 = false;
  nbanks = 4;
  nrows = 8192;
  ncols = 1024;
  technology_timings = technology (ns 7812500) (clocks 2) (clocks 1) none none;
  speedgrade_timings =
      (none, speedgrade (ns 18000) (ns 18000) (ns 12000) (at_least 60000) none none) ∷ [];
}

abbrev pub as4c32m8 : Module
as4c32m8 = record {
  is_ddr4 = false;
  nbanks = 4;
  nrows = 8192;
  ncols = 1024;
  technology_timings = technology (ns 7812500) (clocks 2) (clocks 1) (at_least 15000) none;
  speedgrade_timings =
      (none, speedgrade (ns 20000) (ns 20000) (ns 15000) (at_least 66000) none (ns 44000)) ∷ [];
}

abbrev pub m12l64322a : Module
m12l64322a = record {
  is_ddr4 = false;
  nbanks = 4;
  nrows = 2048;
  ncols = 256;
  technology_timings = technology (ns 15625000) (clocks 2) (clocks 1) (at_least 10000) none;
  speedgrade_timings =
      (none, speedgrade (ns 15000) (ns 15000) (ns 15000) (at_least 55000) none (ns 40000)) ∷ [];
}

abbrev pub em638165 : Module
em638165 = record {
  is_ddr4 = false;
  nbanks = 4;
  nrows = 4096;
  ncols = 256;
  technology_timings = technology (ns 15625000) (clocks 2) (clocks 1) (at_least 10000) none;
  speedgrade_timings =
      (none, speedgrade (ns 15000) (ns 15000) (clocks 2) (at_least 55000) none (ns 40000)) ∷ [];
}

abbrev pub em638325 : Module
em638325 = record {
  is_ddr4 = false;
  nbanks = 4;
  nrows = 2048;
  ncols = 256;
  technology_timings = technology (ns 15625000) (clocks 2) (clocks 1) (at_least 12000) none;
  speedgrade_timings =
      (none, speedgrade (ns 18000) (ns 18000) (clocks 2) (at_least 60000) none (ns 42000)) ∷ [];
}

abbrev pub em636165 : Module
em636165 = record {
  is_ddr4 = false;
  nbanks = 2;
  nrows = 2048;
  ncols = 256;
  technology_timings = technology (ns 15625000) (clocks 2) (clocks 1) (at_least 12000) none;
  speedgrade_timings =
      (none, speedgrade (ns 18000) (ns 18000) (clocks 2) (at_least 60000) none (ns 42000)) ∷ [];
}

abbrev pub m12l16161a : Module
m12l16161a = record {
  is_ddr4 = false;
  nbanks = 2;
  nrows = 2048;
  ncols = 256;
  technology_timings = technology (ns 15625000) (clocks 2) (clocks 1) (at_least 10000) none;
  speedgrade_timings =
      (none, speedgrade (ns 15000) (ns 15000) (ns 15000) (at_least 55000) none (ns 40000)) ∷ [];
}

abbrev pub nds36pt5 : Module
nds36pt5 = record {
  is_ddr4 = false;
  nbanks = 4;
  nrows = 8192;
  ncols = 512;
  technology_timings = technology (ns 7812500) (clocks 2) (clocks 1) (longer 2 10000) none;
  speedgrade_timings =
      (none, speedgrade (ns 15000) (ns 15000) (ns 10000) (at_least 55000) none (ns 40000)) ∷ [];
}

abbrev pub w9825g6kh6 : Module
w9825g6kh6 = record {
  is_ddr4 = false;
  nbanks = 4;
  nrows = 8192;
  ncols = 512;
  technology_timings = technology (ns 7812500) (clocks 2) (clocks 1) (at_least 10000) none;
  speedgrade_timings =
      (none, speedgrade (ns 15000) (ns 15000) (ns 15000) (at_least 60000) none (ns 42000)) ∷ [];
}

abbrev pub w9812g6jb : Module
w9812g6jb = record {
  is_ddr4 = false;
  nbanks = 4;
  nrows = 4096;
  ncols = 512;
  technology_timings = technology (ns 7812500) (clocks 2) (clocks 1) (at_least 12000) none;
  speedgrade_timings =
      (none, speedgrade (ns 15000) (ns 15000) (ns 20000) (at_least 60000) none (ns 42000)) ∷ [];
}

abbrev pub w9864g6jt : Module
w9864g6jt = record {
  is_ddr4 = false;
  nbanks = 4;
  nrows = 4096;
  ncols = 256;
  technology_timings = technology (ns 15625000) (clocks 2) (clocks 1) (at_least 12000) none;
  speedgrade_timings =
      (none, speedgrade (ns 15000) (ns 15000) (clocks 2) (at_least 60000) none (ns 42000)) ∷ [];
}

abbrev pub w989d6dbgx6 : Module
w989d6dbgx6 = record {
  is_ddr4 = false;
  nbanks = 4;
  nrows = 8192;
  ncols = 1024;
  technology_timings = technology (ns 7812500) (clocks 2) (clocks 1) (at_least 12000) none;
  speedgrade_timings =
      (none, speedgrade (ns 18000) (ns 18000) (ns 15000) (at_least 72000) none (ns 42000)) ∷ [];
}
