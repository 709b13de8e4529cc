-- ===== src/Common/Txxd/Elapsed.antt =====
-- What a controller guarantees to its user: `ready` is low until `txxd` cycles have gone by since
-- the last `valid` cycle. An age is the number of cycles since an event, `none` if there was none.
use litedram.Base.{
  ℕ, zero, suc, ◌+◌, ◌^◌, ◌≤◌, ◌<◌, ◌≡◌, ap, arith, Bool, true, false, Option, none, some, pred_mod,
  pred_mod_of_pos, pred_mod_zero, pred_mod-lt, two_pow-pos,
}
use litedram.Common.Txxd.{Txxd, reset, count_step, step}

-- The least time `t` has gone by.
abbrev pub AtLeast : Option ℕ → Option ℕ → Type 0
AtLeast none age = Unit
AtLeast (some t) none = Unit
AtLeast (some t) (some a) = t ≤ a

abbrev pub age_step : Bool → Option ℕ → Option ℕ
age_step true age = some 1
age_step false none = none
age_step false (some a) = some (a + 1)

-- `Signal(max=max(txxd, 2))` of width `w` holds the values that it is declared for.
abbrev pub Fits : Option ℕ → ℕ → Type 0
Fits none w = Unit
Fits (some t) w = t ≤ 2 ^ w

abbrev pub Covers : Option ℕ → ℕ → Txxd → Option ℕ → Type 0
Covers none w s age = Unit
Covers (some t) w s none = s.count < 2 ^ w
Covers (some t) w s (some a) =
    (s.count < 2 ^ w) × (s.ready ≡ true → t ≤ a) × (s.ready ≡ false → t ≤ a + s.count)

pub reset-Covers : (txxd : Option ℕ) (w : ℕ) → Covers txxd w (reset txxd) none
unfolding reset
reset-Covers none w = tt
reset-Covers (some t) w = two_pow-pos w

-- A controller that is ready has waited long enough.
pub ready-AtLeast :
    (txxd : Option ℕ) (w : ℕ) (s : Txxd) (age : Option ℕ)
    → Covers txxd w s age
    → s.ready ≡ true
    → AtLeast txxd age
ready-AtLeast none w s age c r = tt
ready-AtLeast (some t) w s none c r = tt
ready-AtLeast (some t) w s (some a) c r = c.1 r

count_step-Covers :
    (t m : ℕ) (s : Txxd) (a : ℕ)
    → 0 < m
    → s.count < m
    → (s.ready ≡ true → t ≤ a)
    → (s.ready ≡ false → t ≤ a + s.count)
    → let s' = count_step t m false s in
      (s'.count < m) × (s'.ready ≡ true → t ≤ a + 1) × (s'.ready ≡ false → t ≤ a + 1 + s'.count)
unfolding count_step
count_step-Covers t m s a pos small up down = ground (
  arith,
  pred_mod_of_pos m s.count,
  pred_mod_zero m,
  pred_mod-lt m s.count,
  ap (pred_mod m) {x = s.count} {y = 0},
)

count_step_small : (t m : ℕ) (s : Txxd) → 0 < m → s.count < m → (count_step t m false s).count < m
unfolding count_step
count_step_small t m s pos small = ground (arith, pred_mod-lt m s.count)

start-Covers :
    (t m : ℕ) (s : Txxd)
    → 0 < m
    → t ≤ m
    → let s' = count_step t m true s in
      (s'.count < m) × (s'.ready ≡ true → t ≤ 1) × (s'.ready ≡ false → t ≤ 1 + s'.count)
unfolding count_step
start-Covers zero m s pos fits = (pred_mod-lt m 0 pos, (λ h. omega arith), λ h. omega arith)
start-Covers (suc t) m s pos fits = ground (arith, pred_mod-lt m (suc t), pred_mod_of_pos m (suc t))

pub step-Covers :
    (txxd : Option ℕ) (w : ℕ) (valid : Bool) (s : Txxd) (age : Option ℕ)
    → Fits txxd w
    → Covers txxd w s age
    → Covers txxd w (step txxd w valid s) (age_step valid age)
unfolding step
step-Covers none w valid s age fits c = tt
step-Covers (some t) w true s none fits c = start-Covers t (2 ^ w) s (two_pow-pos w) fits
step-Covers (some t) w false s none fits c = count_step_small t (2 ^ w) s (two_pow-pos w) c
step-Covers (some t) w true s (some a) fits c = start-Covers t (2 ^ w) s (two_pow-pos w) fits
step-Covers (some t) w false s (some a) fits c =
    count_step-Covers t (2 ^ w) s a (two_pow-pos w) c.0 c.1 c.2
