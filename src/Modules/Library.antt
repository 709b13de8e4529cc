-- ===== src/Modules/Library.antt =====
-- The tables of the modules in litedram/modules.py that keep their timings in the two tables.
pub mod Sdr
pub mod Ddr
pub mod Ddr3
pub mod Ddr3More
pub mod Ddr3Dimm
pub mod Ddr4
pub mod Ddr4Dimm
pub mod Accepted
use litedram.Base.{ℕ, Option, none, some}
use litedram.Modules.{ps, Entry, Value}
use litedram.Modules.Build.{SpeedgradeTimings, TechnologyTimings}

-- A time in picoseconds, `(ck, None)`, `(None, ns)`, `(ck, ns)` and a dictionary.
abbrev pub ns : ℕ → Option Value
ns t = some (Value.plain (Entry.time (ps t)))

abbrev pub clocks : ℕ → Option Value
clocks ck = some (Value.plain (Entry.pair (some ck) none))

abbrev pub at_least : ℕ → Option Value
at_least t = some (Value.plain (Entry.pair none (some (ps t))))

abbrev pub longer : ℕ → ℕ → Option Value
longer ck t = some (Value.plain (Entry.pair (some ck) (some (ps t))))

abbrev entry : Option Value → Entry
entry (some (Value.plain e)) = e
entry _ = Entry.pair none none

abbrev pub refresh : (a b c : Option Value) → Option Value
refresh a b c = some (Value.by_mode (entry a) (entry b) (entry c))

abbrev pub technology : (trefi twtr tccd trrd tzqcs : Option Value) → TechnologyTimings
technology trefi twtr tccd trrd tzqcs = record {
  trefi = trefi;
  twtr = twtr;
  tccd = tccd;
  trrd = trrd;
  tzqcs = tzqcs;
}

abbrev pub speedgrade : (trp trcd twr trfc tfaw tras : Option Value) → SpeedgradeTimings
speedgrade trp trcd twr trfc tfaw tras = record {
  trp = trp;
  trcd = trcd;
  twr = twr;
  trfc = trfc;
  tfaw = tfaw;
  tras = tras;
}
