-- ===== src/Core/Refresher/Rate.antt =====
-- How often a refresh is wanted.
use native.Mathlib.Decide.{dec_lt}
use native.Mathlib.Nat.{mod-eq_of_lt, mul-add-mod_self_right}
use litedram.Base.{
  ℕ, zero, suc, ◌+◌, ◌-◌, ◌*◌, ◌%◌, ◌≤◌, ◌<◌, ◌≡◌, refl, sym, ap, ◌∙◌, arith, Bool, not, ◌&&◌, List,
  [], ◌∷◌, length, ◌==◌, ltb,
}
use litedram.Core.Refresher.Timeline.{Timeline}
use litedram.Core.Refresher.{Settings, Postponer, timer_step, timer_done, postponer_step, run}

-- After `n` cycles: `r` cycles of a period, `j` periods of a group, `k` groups.
record Phase (trefi postponing n timer : ℕ) (p : Postponer) : Type 0 where
  k : ℕ
  j : ℕ
  r : ℕ
  split : n ≡ (k * postponing + j) * trefi + r
  in_period : r < trefi
  in_group : j < postponing
  timed : timer ≡ trefi - 1 - r
  counted : p.count ≡ postponing - 1 - j
  requested : p.req_o ≡ (ltb 0 n && ((j == 0) && (r == 0)))

group_end :
    (n k j r trefi postponing : ℕ)
    → n ≡ (k * postponing + j) * trefi + r
    → suc r ≡ trefi
    → suc j ≡ postponing
    → suc n ≡ ((k + 1) * postponing + 0) * trefi + 0
group_end n k j r trefi postponing e p g =
    let q : k * postponing + j + 1 ≡ (k + 1) * postponing + 0 = omega arith in
    omega (arith, ap (λ (m : ℕ). m * trefi) q)

next-Phase :
    (trefi postponing n timer : ℕ) (p : Postponer)
    → Phase trefi postponing n timer p
    → Phase trefi postponing
        (suc n)
        (timer_step trefi (not (timer_done timer)) timer)
        (postponer_step postponing (timer_done timer) p)
unfolding timer_step postponer_step
next-Phase trefi postponing n timer p h = elim (dec_lt (h.r + 1) trefi) [
  | yes l ↦ record {
    k = h.k;
    j = h.j;
    r = h.r + 1;
    split = omega (arith, h.split);
    in_period = l;
    in_group = h.in_group;
    timed = ground (arith, h.timed);
    counted = ground (arith, h.timed, h.counted);
    requested = ground (arith, h.timed);
  }
  | no g ↦ elim (dec_lt (h.j + 1) postponing) [
    | yes m ↦ record {
      k = h.k;
      j = h.j + 1;
      r = 0;
      split = omega (arith, h.split, h.in_period);
      in_period = omega (arith, h.in_period);
      in_group = m;
      timed = ground (arith, h.timed, h.in_period);
      counted = ground (arith, h.timed, h.counted, h.in_period);
      requested = ground (arith, h.timed, h.counted, h.in_period);
    }
    | no e ↦ record {
      k = h.k + 1;
      j = 0;
      r = 0;
      split =
          group_end n h.k h.j h.r trefi postponing h.split (omega (arith, h.in_period))
            (omega (arith, h.in_group));
      in_period = omega (arith, h.in_period);
      in_group = omega (arith, h.in_group);
      timed = ground (arith, h.timed, h.in_period);
      counted = ground (arith, h.timed, h.counted, h.in_period, h.in_group);
      requested = ground (arith, h.timed, h.counted, h.in_period, h.in_group);
    }
  ]
]

group_position :
    (n k j r trefi postponing : ℕ)
    → n ≡ (k * postponing + j) * trefi + r
    → r < trefi
    → j < postponing
    → n % (postponing * trefi) ≡ j * trefi + r
group_position n k j r trefi postponing e p g =
    ap (λ m. m % (postponing * trefi)) (e ∙ regroup)
    ∙ mul-add-mod_self_right k (postponing * trefi) (j * trefi + r)
    ∙ mod-eq_of_lt {n = j * trefi + r} {m = postponing * trefi} below
  where
    regroup : (k * postponing + j) * trefi + r ≡ k * (postponing * trefi) + (j * trefi + r)
    regroup = omega arith

    below : j * trefi + r < postponing * trefi
    below = grind arith

at_start : (j r trefi : ℕ) → 1 ≤ trefi → ((j == 0) && (r == 0)) ≡ (j * trefi + r == 0)
at_start zero r trefi p = ground arith
at_start (suc j) r trefi p = ground arith

module _ (g : Settings) (t : Timeline (g.trp + g.trfc)) (z : Timeline (g.trp + g.tzqcs)) where
  run-Phase :
      (h : List Bool)
      → 1 ≤ g.trefi
      → 1 ≤ g.postponing
      → Phase g.trefi g.postponing (length h) (run g t z h).timer (run g t z h).postponer
  unfolding run
  run-Phase [] p q = record {
    k = 0;
    j = 0;
    r = 0;
    split = omega arith;
    in_period = p;
    in_group = q;
    timed = omega arith;
    counted = omega arith;
    requested = refl;
  }
  run-Phase (i ∷ h) p q = next-Phase g.trefi g.postponing (length h) _ _ (run-Phase h p q)

  -- When tREFI and `postponing` are at least 1, a refresh is wanted for one cycle in every
  -- `postponing` times tREFI cycles, whatever the controller answers: at each positive multiple
  -- of that number, and at no other cycle.
  pub refresh_wanted :
      (h : List Bool)
      → 1 ≤ g.trefi
      → 1 ≤ g.postponing
      → (run g t z h).postponer.req_o
        ≡ (ltb 0 (length h) && (length h % (g.postponing * g.trefi) == 0))
  refresh_wanted h p q =
      let f = run-Phase h p q in
      let e =
        group_position (length h) f.k f.j f.r g.trefi g.postponing f.split f.in_period f.in_group in
      f.requested
      ∙ ap (λ b. ltb 0 (length h) && b) (at_start f.j f.r g.trefi p ∙ ap (λ n. n == 0) (sym e))
