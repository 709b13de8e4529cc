-- ===== src/Tests/Bandwidth.antt =====
-- The bandwidth measurement, with periods of four cycles.
use litedram.Base.{◌≡◌, refl, true, false, ◌∷◌, replicate, if◌then◌else◌}
use litedram.Core.Bandwidth.{Inputs, run, step, next_count}
use litedram.Core.Bandwidth.Period.{
  read_accepted, write_accepted, last_period, update_copies_period,
}

abbrev read : Inputs
read = record { valid = true; ready = true; is_read = true; is_write = false; update = false }

abbrev update : Inputs
update = record { valid = true; ready = true; is_read = false; is_write = true; update = true }

-- A period of four reads is counted.
counts_reads : (run 2 (update ∷ replicate 9 read)).nreads_status ≡ 4
unfolding run step next_count
counts_reads = refl

update_copies_period_example :
    ((run 2 (update ∷ replicate 9 read)).nreads_status ≡ (
      if true
      then last_period 2 (replicate 9 read) read_accepted
      else (run 2 (replicate 9 read)).nreads_status))
    × ((run 2 (update ∷ replicate 9 read)).nwrites_status ≡ (
        if true
        then last_period 2 (replicate 9 read) write_accepted
        else (run 2 (replicate 9 read)).nwrites_status))
update_copies_period_example = update_copies_period 2 update (replicate 9 read)
