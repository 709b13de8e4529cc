-- ===== src/Modules/Spd/Total.antt =====
-- `SDRAMModule.from_spd_data` of litedram/modules.py returns a module for DDR3 data in range.
use litedram.Base.{ℕ, ◌+◌, ◌/◌, ◌%◌, ◌^◌, max, Option, none, some, List, nth}
use litedram.Modules.Doubles.{Float, quotient, mul}
use litedram.Modules.{Value, Entry, ps}
use litedram.Modules.Build.{GeomSettings}
use litedram.Modules.Spd.{word, lsn, Timebase, txx}
use litedram.Modules.Spd.Decode.{fine, Timings}

abbrev at : List ℕ → ℕ → ℕ
at spd i = nth 0 spd i

-- The timebases of the bytes 9 to 11.
abbrev pub timebase : List ℕ → Timebase
timebase spd = record {
  medium = quotient (at spd 10) (at spd 11);
  fine = mul (quotient (at spd 9 / 2 ^ 4 % 2 ^ 4) (at spd 9 / 2 ^ 0 % 2 ^ 4)) (quotient 1 1000);
}

abbrev plain : Float → Option Value
plain t = some (Value.plain (Entry.time t))

abbrev pair : Option ℕ → Option Float → Option Value
pair ck t = some (Value.plain (Entry.pair ck t))

-- The tables of the bytes 17 to 37, for data of a speedgrade.
abbrev pub tables : (spd : List ℕ) (speedgrade : ℕ) → Timings
tables spd speedgrade =
    let time = txx (timebase spd) in
    record {
      speedgrade = speedgrade;
      technology = record {
        trefi = plain (ps 7812500);
        twtr = pair (some 4) (some (time (at spd 26) 0));
        tccd = pair (some 4) none;
        trrd = pair (some 4) (some (time (at spd 19) 0));
        tzqcs = pair (some 64) (some (ps 80000));
      };
      grade = record {
        trp = plain (time (at spd 20) (at spd 37));
        trcd = plain (time (at spd 18) (at spd 36));
        twr = plain (time (at spd 17) 0);
        trfc = pair none (some (time (word (at spd 25) (at spd 24)) 0));
        tfaw = pair none (some (time (word (lsn (at spd 28)) (at spd 29)) 0));
        tras = plain (time (word (lsn (at spd 21)) (at spd 22)) 0);
      };
    }

-- The bits of the numbers of banks, rows and columns.
abbrev pub geometry_bits : List ℕ → GeomSettings
geometry_bits spd =
    let rows = 12 + at spd 5 / 2 ^ 3 % 2 ^ 3 in
    let columns = 9 + at spd 5 / 2 ^ 0 % 2 ^ 3 in
    record {
      bankbits = 3 + at spd 4 / 2 ^ 4 % 2 ^ 3;
      rowbits = rows;
      colbits = columns;
      addressbits = max rows columns;
    }
