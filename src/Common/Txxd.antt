-- ===== src/Common/Txxd.antt =====
-- `tXXDController` of litedram/common.py: after a `valid` cycle, `ready` stays low until `txxd`
-- cycles have gone by. `w` is the width of its counter, which `Signal(max=max(txxd, 2))` declares.
pub mod Delay
pub mod Elapsed
use litedram.Base.{
  ℕ, zero, suc, ◌+◌, ◌-◌, ◌%◌, ◌^◌, Bool, true, false, Option, none, some, List, [], ◌∷◌, ◌==◌,
  if◌then◌else◌, pred_mod, after,
}

pub record Txxd : Type 0 where
  pub count : ℕ
  pub ready : Bool

-- `ready` has the reset value `txxd is None`.
unfoldable pub reset : Option ℕ → Txxd
reset none = record { count = 0; ready = true }
reset (some txxd) = record { count = 0; ready = false }

-- One clock cycle, for a counter of `m` values. `txxd - 1` is cut to the counter's width.
unfoldable pub count_step : ℕ → ℕ → Bool → Txxd → Txxd
count_step txxd m true s = record { count = pred_mod m txxd; ready = txxd == 1 }
count_step txxd m false s =
    if s.ready
    then s
    else record { count = pred_mod m s.count; ready = if s.count == 1 then true else s.ready }

-- With no timing there is no counter, and `ready` is never changed.
unfoldable pub step : Option ℕ → ℕ → Bool → Txxd → Txxd
unfolding count_step
step none w valid s = s
step (some txxd) w valid s = count_step txxd (2 ^ w) valid s

unfoldable pub run : Option ℕ → ℕ → List Bool → Txxd
unfolding step reset
run txxd w h = after (step txxd w) (reset txxd) h
