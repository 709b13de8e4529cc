-- ===== src/Common/Faw.antt =====
-- `tFAWController` of litedram/common.py: a shift register of the last `tfaw` `valid` cycles, whose
-- ones are counted. `w` is the width of the count, which `Signal(max=max(tfaw, 2))` declares.
pub mod Window
use litedram.Base.{
  ℕ, zero, suc, ◌+◌, ◌-◌, ◌%◌, ◌^◌, Bool, true, false, not, Option, none, some, List, [], ◌∷◌, ◌==◌,
  ltb, if◌then◌else◌, after, take, replicate, popcount,
}

-- The window's most recent bit comes first.
pub record Faw : Type 0 where
  pub window : List Bool
  pub ready : Bool

unfoldable pub reset : Option ℕ → Faw
reset none = record { window = []; ready = true }
reset (some tfaw) = record { window = replicate tfaw false; ready = true }

-- `count`, cut to its width.
unfoldable pub count : ℕ → Faw → ℕ
count w s = popcount s.window % 2 ^ w

unfoldable pub next_ready : ℕ → Bool → Bool → Bool
next_ready c valid ready = if ltb c 4 then (if c == 3 then not valid else true) else ready

unfoldable pub step : Option ℕ → ℕ → Bool → Faw → Faw
unfolding count next_ready
step none w valid s = s
step (some tfaw) w valid s = record {
  window = take tfaw (valid ∷ s.window);
  ready = next_ready (count w s) valid s.ready;
}

unfoldable pub run : Option ℕ → ℕ → List Bool → Faw
unfolding step reset
run tfaw w h = after (step tfaw w) (reset tfaw) h
