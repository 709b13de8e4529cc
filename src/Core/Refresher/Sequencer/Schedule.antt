-- ===== src/Core/Refresher/Sequencer/Schedule.antt =====
-- A started sequence issues `postponing` refreshes, each with its precharge and its times.
use native.Mathlib.Nat.{mod-eq_of_lt, mul-add-mod_self_right}
use native.Mathlib.Decide.{dec_lt}
use litedram.Base.{
  ℕ, zero, suc, ◌+◌, ◌-◌, ◌*◌, ◌%◌, ◌≤◌, ◌<◌, ◌≡◌, refl, sym, ap, ◌∙◌, arith, Bool, true, false,
  none, some, ◌==◌, if◌then◌else◌,
}
use litedram.Core.Refresher.Timeline.{Timeline}
use litedram.Core.Refresher.Sequencer.{
  no_command, precharge_all, auto_refresh, executer_command, executer_step, executer_now, Sequencer,
  executer_start, done, step,
}

mul_mono : (a b d : ℕ) → b ≤ a → b * d ≤ a * d
mul_mono a b d h = grind arith

lt_of_mul : (a b d : ℕ) → a * d < b * d → a < b
lt_of_mul a b d h = elim (dec_lt a b) [
  | yes l ↦ l
  | no g ↦ absurd (omega (arith, mul_mono a b d (omega arith)))
]

mod_of_split : (k j d r : ℕ) → k ≡ j * d + r → r < d → k % d ≡ r
mod_of_split k j d r e h = grind (arith, mul-add-mod_self_right, mod-eq_of_lt)

module _ (trp trfc postponing : ℕ) (t : Timeline (trp + trfc)) where
  -- Nothing runs and nothing is left to do.
  pub record IsIdle (s : Sequencer t) : Type 0 where
    pub no_count : s.count ≡ 0
    pub not_running : t.position s.executer.line ≡ none
    pub not_done : s.executer.done ≡ false

  -- Cycle `r` of the refresh number `j`, both from 0, has just been gone through.
  record IsAt (j r : ℕ) (s : Sequencer t) : Type 0 where
    left : s.count ≡ postponing - 1 - j
    running : r < trp + trfc → t.position s.executer.line ≡ some (r + 1)
    over : r ≡ trp + trfc → t.position s.executer.line ≡ none
    finished : s.executer.done ≡ (r == trp + trfc)
    issued : s.cmd ≡ executer_command trp trfc (some r)

  -- `k` cycles after the start cycle.
  unfoldable pub state_at : ℕ → Sequencer t → Sequencer t
  state_at zero s = step trp trfc postponing t true s
  state_at (suc k) s = step trp trfc postponing t false (state_at k s)

  -- One refresh takes this many cycles.
  abbrev pub duration : ℕ
  duration = trp + trfc + 1

module _ (trp trfc postponing : ℕ) (t : Timeline (trp + trfc)) (trp_pos : 1 ≤ trp)
    (trfc_pos : 1 ≤ trfc) where
  start-IsAt :
      (s : Sequencer t)
      → IsIdle trp trfc postponing t s
      → IsAt trp trfc postponing t 0 0 (step trp trfc postponing t true s)
  unfolding step executer_now
  start-IsAt s i = record {
    left = omega arith;
    running = λ h. t.starts s.executer.line i.not_running (omega arith) ∙ ap some (omega arith);
    over = λ h. absurd (omega arith);
    finished = rw i.not_running;
    issued = rw i.not_running;
  }

  -- The timeline while it runs, whatever its trigger.
  module _ (s : Sequencer t) (r : ℕ) (go : Bool) (at : t.position s.executer.line ≡ some r) where
    now_running : executer_now t go s.executer ≡ some r
    unfolding executer_now
    now_running = rw at

    line_running : r < trp + trfc → t.position (t.step go s.executer.line) ≡ some (r + 1)
    line_running h = t.runs s.executer.line go r at h

    line_over : r ≡ trp + trfc → t.position (t.step go s.executer.line) ≡ none
    line_over e = t.ends s.executer.line go (at ∙ ap some e)

  next-IsAt :
      (j r : ℕ) (s : Sequencer t)
      → r < trp + trfc
      → IsAt trp trfc postponing t j r s
      → IsAt trp trfc postponing t j (r + 1) (step trp trfc postponing t false s)
  unfolding step executer_start executer_step
  next-IsAt j r s h i =
      let go = executer_start trp trfc postponing t false s in
      let at = i.running h in
      let low : s.executer.done ≡ false = i.finished ∙ ground arith in
      record {
        left = simp low i.left;
        running = line_running s (r + 1) go at;
        over = line_over s (r + 1) go at;
        finished = simp (now_running s (r + 1) go at);
        issued = simp (now_running s (r + 1) go at);
      }

  again-IsAt :
      (j : ℕ) (s : Sequencer t)
      → j + 1 < postponing
      → IsAt trp trfc postponing t j (trp + trfc) s
      → IsAt trp trfc postponing t (j + 1) 0 (step trp trfc postponing t false s)
  unfolding step executer_now
  again-IsAt j s h i =
      let high : s.executer.done ≡ true = i.finished ∙ ground arith in
      let more : (s.count == 0) ≡ false = ground (arith, i.left) in
      record {
        left = simp (high, more) (omega (arith, i.left));
        running = λ e.
            simp more
              (t.starts s.executer.line (i.over refl) (omega arith) ∙ ap some (omega arith));
        over = λ e. absurd (omega arith);
        finished = simp (i.over refl, more);
        issued = simp (i.over refl, more);
      }

  record Progress (k : ℕ) (s : Sequencer t) : Type 0 where
    j : ℕ
    r : ℕ
    split : k ≡ j * (duration trp trfc postponing t) + r
    inside : r < (duration trp trfc postponing t)
    more : j < postponing
    at : IsAt trp trfc postponing t j r s

  state_at-Progress :
      (k : ℕ) (s : Sequencer t)
      → k < postponing * (duration trp trfc postponing t)
      → IsIdle trp trfc postponing t s
      → Progress k (state_at trp trfc postponing t k s)
  unfolding state_at
  state_at-Progress zero s h i = record {
    j = 0;
    r = 0;
    split = omega arith;
    inside = omega arith;
    more = lt_of_mul 0 postponing (duration trp trfc postponing t) (omega arith);
    at = start-IsAt s i;
  }
  state_at-Progress (suc k) s h i =
      let p = state_at-Progress k s (omega arith) i in
      elim (dec_lt p.r (trp + trfc)) [
        | yes l ↦ record {
          j = p.j;
          r = p.r + 1;
          split = omega (arith, p.split);
          inside = omega arith;
          more = p.more;
          at = next-IsAt p.j p.r _ l p.at;
        }
        | no g ↦
            let e : p.r ≡ trp + trfc = omega (arith, p.inside) in
            let q : suc k ≡ (p.j + 1) * (duration trp trfc postponing t) + 0 =
              omega (arith, p.split) in
            let m : p.j + 1 < postponing =
              lt_of_mul (p.j + 1) postponing (duration trp trfc postponing t) (omega arith) in
            record {
              j = p.j + 1;
              r = 0;
              split = q;
              inside = omega arith;
              more = m;
              at = again-IsAt p.j _ m (rw e at p.at);
            }
      ]

  commands :
      (r : ℕ)
      → r < (duration trp trfc postponing t)
      → executer_command trp trfc (some r)
        ≡ (if r == 0 then precharge_all else if r == trp then auto_refresh else no_command)
  unfolding executer_command
  commands r h = ground arith

  Progress-mod :
      (k : ℕ) (s : Sequencer t) (p : Progress k s) → p.r ≡ k % (duration trp trfc postponing t)
  Progress-mod k s p =
      sym (mod_of_split k p.j (duration trp trfc postponing t) p.r p.split p.inside)

  finishes :
      (k : ℕ) (s : Sequencer t) (p : Progress k s)
      → done trp trfc postponing t s ≡ (k + 1 == postponing * (duration trp trfc postponing t))
  unfolding done
  finishes k s p = elim (dec_lt (p.j + 1) postponing) [
    | yes l ↦ ground (
      arith,
      p.at.finished,
      p.at.left,
      p.split,
      p.inside,
      mul_mono postponing (p.j + 2) (duration trp trfc postponing t) (omega arith),
    )
    | no g ↦
        let e : postponing ≡ p.j + 1 = omega (arith, p.more) in
        let q : postponing * (duration trp trfc postponing t)
            ≡ (p.j + 1) * (duration trp trfc postponing t) =
          ap (λ (n : ℕ). n * (duration trp trfc postponing t)) e in
        ground (arith, p.at.finished, p.at.left, p.split, p.inside, e, q)
  ]

  -- With tRP and tRFC of at least 1, an idle sequencer that is started repeats, for `postponing`
  -- times `tRP + tRFC + 1` cycles, the sequence Precharge All, tRP cycles later Auto Refresh,
  -- and nothing in between; it reports that it is done at the last of these cycles only.
  pub refresh_schedule :
      (k : ℕ) (s : Sequencer t)
      → IsIdle trp trfc postponing t s
      → k < postponing * (duration trp trfc postponing t)
      → let s' = state_at trp trfc postponing t k s in
        (s'.cmd ≡ (
          if k % (duration trp trfc postponing t) == 0
          then precharge_all
          else if k % (duration trp trfc postponing t) == trp
          then auto_refresh
          else no_command))
        × (done trp trfc postponing t s' ≡ (k + 1 == postponing * (duration trp trfc postponing t)))
  refresh_schedule k s i h =
      let p = state_at-Progress k s h i in
      (
        p.at.issued
            ∙ ap (λ r. executer_command trp trfc (some r)) (Progress-mod k _ p)
            ∙ commands (k % (duration trp trfc postponing t)) (omega arith),
        finishes k _ p,
      )
