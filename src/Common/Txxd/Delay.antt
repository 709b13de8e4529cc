-- ===== src/Common/Txxd/Delay.antt =====
-- The controller counts the cycles that are left: `ready` is high exactly when none is.
use litedram.Base.{
  ℕ, zero, suc, ◌+◌, ◌-◌, ◌^◌, ◌≤◌, ◌<◌, ◌≡◌, refl, ◌∙◌, ap, arith, Bool, true, false, some, List,
  [], ◌∷◌, ◌++◌, ◌==◌, leb, pred_mod, pred_mod_of_pos, pred_mod_zero, two_pow-pos, two-le-two_pow,
  after, replicate, inl, inr, ◌⊎◌,
}
use litedram.Common.Txxd.{Txxd, count_step, run}

-- The specification: how many cycles `ready` will stay low.
abbrev pub left_step : ℕ → Bool → ℕ → ℕ
left_step txxd true d = txxd - 1
left_step txxd false d = d - 1

-- After reset the counter wraps once.
abbrev pub cycles_left : ℕ → ℕ → List Bool → ℕ
cycles_left txxd w h = after (left_step txxd) (2 ^ w) h

record Counts (m : ℕ) (s : Txxd) (d : ℕ) : Type 0 where
  at_zero : s.ready ≡ (d == 0)
  bounded : d ≤ m
  counted : 0 < d → (s.count ≡ d) ⊎ ((s.count ≡ 0) × (d ≡ m))

count_step-Counts :
    (txxd m : ℕ) (valid : Bool) (s : Txxd) (d : ℕ)
    → 1 ≤ txxd
    → txxd ≤ m
    → 2 ≤ m
    → Counts m s d
    → Counts m (count_step txxd m valid s) (left_step txxd valid d)
unfolding count_step
count_step-Counts txxd m true s d pos fits big c = record {
  at_zero = ground arith;
  bounded = omega arith;
  counted = λ h. inl (pred_mod_of_pos m txxd pos fits);
}
count_step-Counts txxd m false s zero pos fits big c = simp c.at_zero c
count_step-Counts txxd m false s (suc d) pos fits big c =
    let low : s.ready ≡ false = ground (arith, c.at_zero) in
    rw low (elim (c.counted (omega arith)) [
      | inl e ↦ record {
        at_zero = ground arith;
        bounded = omega (arith, c.bounded);
        counted = λ h.
            inl (pred_mod_of_pos m s.count (omega arith) (omega (arith, c.bounded)) ∙ omega arith);
      }
      | inr (e, full) ↦ record {
        at_zero = ground arith;
        bounded = omega (arith, c.bounded);
        counted = λ h. inl (omega (arith, pred_mod_zero m (omega arith), ap (pred_mod m) e));
      }
    ])

run-Counts :
    (txxd w : ℕ) (h : List Bool)
    → 1 ≤ txxd
    → txxd ≤ 2 ^ w
    → 1 ≤ w
    → Counts (2 ^ w) (run (some txxd) w h) (cycles_left txxd w h)
unfolding run
run-Counts txxd w [] pos fits wide = record {
  at_zero = ground (arith, two_pow-pos w);
  bounded = omega arith;
  counted = λ h. inr (refl, refl);
}
run-Counts txxd w (v ∷ h) pos fits wide =
    count_step-Counts txxd (2 ^ w) v _ _ pos fits (two-le-two_pow w wide)
      (run-Counts txxd w h pos fits wide)

-- For a timing of at least 1 that the counter can hold, `ready` is high exactly when no cycle is
-- left to wait, after any history of `valid` inputs.
pub ready-cycles_left :
    (txxd w : ℕ) (h : List Bool)
    → 1 ≤ txxd
    → txxd ≤ 2 ^ w
    → 1 ≤ w
    → (run (some txxd) w h).ready ≡ (cycles_left txxd w h == 0)
ready-cycles_left txxd w h pos fits wide = (run-Counts txxd w h pos fits wide).at_zero

cycles_left-idle :
    (txxd w n : ℕ) (h : List Bool)
    → cycles_left txxd w (replicate n false ++ (true ∷ h)) ≡ txxd - 1 - n
cycles_left-idle txxd w zero h = omega arith
cycles_left-idle txxd w (suc n) h = omega (arith, cycles_left-idle txxd w n h)

-- For a timing of at least 1 that the counter can hold, and a last `valid` cycle that lies `n +
-- 1` cycles back, `ready` is high exactly when `txxd` is at most `n + 1`, whatever came before.
ready-since_valid :
    (txxd w n : ℕ) (h : List Bool)
    → 1 ≤ txxd
    → txxd ≤ 2 ^ w
    → 1 ≤ w
    → (run (some txxd) w (replicate n false ++ (true ∷ h))).ready ≡ leb txxd (n + 1)
ready-since_valid txxd w n h pos fits wide =
    ready-cycles_left txxd w _ pos fits wide ∙ ground (arith, cycles_left-idle txxd w n h)
