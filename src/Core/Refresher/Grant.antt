-- ===== src/Core/Refresher/Grant.antt =====
-- What a granted refresh does: the whole sequence, then the end of the request.
use litedram.Base.{
  ℕ, ◌+◌, ◌*◌, ◌≤◌, ◌<◌, ◌≡◌, refl, ap, ◌∙◌, arith, Bool, true, false, not, List, [], ◌∷◌, length,
  ◌==◌, if◌then◌else◌,
}
use litedram.Core.Refresher.Timeline.{Timeline}
use litedram.Core.Refresher.Sequencer
use litedram.Core.Refresher.Sequencer.Schedule.{IsIdle, state_at, refresh_schedule}
use litedram.Core.Refresher.{Settings, State, Refresher, Act, quiet, act, outputs, step}

else_of : {A : Type 0} (b : Bool) (x y : A) → b ≡ false → (if b then x else y) ≡ y
else_of b x y e = rw e

module _ (g : Settings) (t : Timeline (g.trp + g.trfc)) (z : Timeline (g.trp + g.tzqcs)) where
  -- The states after a grant: the grant's cycle, then one for each further `cmd.ready`.
  abbrev pub after_grant : Refresher g t z → List Bool → Refresher g t z
  after_grant s [] = step g t z true s
  after_grant s (ready ∷ h) = step g t z ready (after_grant s h)

  abbrev pub refresh_cycles : ℕ
  refresh_cycles = g.postponing * (g.trp + g.trfc + 1)

  record Refreshing (k : ℕ) (s s' : Refresher g t z) : Type 0 where
    in_refresh : s'.fsm ≡ State.do_refresh
    scheduled : s'.sequencer ≡ state_at g.trp g.trfc g.postponing t k s.sequencer

  -- The sequencer's next state, and the FSM's, from what the FSM drives.
  sequencer-step :
      (ready : Bool) (s : Refresher g t z) (start : Bool)
      → g.with_zqcs ≡ false
      → (outputs g t z ready s).start ≡ start
      → (step g t z ready s).sequencer
        ≡ Sequencer.step g.trp g.trfc g.postponing t start s.sequencer
  unfolding step
  sequencer-step ready s start plain e =
      else_of g.with_zqcs _ _ plain
      ∙ ap (λ b. Sequencer.step g.trp g.trfc g.postponing t b s.sequencer) e

  granted :
      (s : Refresher g t z)
      → s.fsm ≡ State.wait_bank_machines
      → outputs g t z true s ≡ record (quiet State.do_refresh) { valid = true; start = true }
  unfolding outputs act
  granted s w = simp w

  refreshing :
      (ready : Bool) (s : Refresher g t z)
      → g.with_zqcs ≡ false
      → s.fsm ≡ State.do_refresh
      → outputs g t z ready s ≡ (
          if Sequencer.done g.trp g.trfc g.postponing t s.sequencer
          then record (quiet State.idle) { last = true }
          else record (quiet State.do_refresh) { valid = true })
  unfolding outputs act
  refreshing ready s plain w = simp (w, plain)

  fsm-step :
      (ready : Bool) (s : Refresher g t z) → (step g t z ready s).fsm ≡ (outputs g t z ready s).next
  unfolding step
  fsm-step ready s = refl

  module _ (plain : g.with_zqcs ≡ false) (p : 1 ≤ g.trp) (q : 1 ≤ g.trfc) (s : Refresher g t z)
      (w : s.fsm ≡ State.wait_bank_machines)
      (i : IsIdle g.trp g.trfc g.postponing t s.sequencer) where
    done_at :
        (k : ℕ) (s' : Refresher g t z)
        → k < refresh_cycles
        → Refreshing k s s'
        → Sequencer.done g.trp g.trfc g.postponing t s'.sequencer ≡ (k + 1 == refresh_cycles)
    done_at k s' l r =
        ap (λ x. Sequencer.done g.trp g.trfc g.postponing t x) r.scheduled
        ∙ (refresh_schedule g.trp g.trfc g.postponing t p q k s.sequencer i l).1

    after_grant-Refreshing :
        (h : List Bool) → length h < refresh_cycles → Refreshing (length h) s (after_grant s h)
    unfolding state_at
    after_grant-Refreshing [] l = record {
      in_refresh = fsm-step true s ∙ ap (λ (o : Act). o.next) (granted s w);
      scheduled = sequencer-step true s true plain (ap (λ (o : Act). o.start) (granted s w));
    }
    after_grant-Refreshing (ready ∷ h) l =
        let r = after_grant-Refreshing h (omega arith) in
        let s' = after_grant s h in
        let o : outputs g t z ready s' ≡ record (quiet State.do_refresh) { valid = true } =
          refreshing ready s' plain r.in_refresh
          ∙ rw (done_at (length h) s' (omega arith) r) (ground arith) in
        record {
          in_refresh = fsm-step ready s' ∙ ap (λ (o : Act). o.next) o;
          scheduled =
              sequencer-step ready s' false plain (ap (λ (o : Act). o.start) o)
              ∙ ap (λ x. Sequencer.step g.trp g.trfc g.postponing t false x) r.scheduled;
        }

    -- Without ZQCS, with tRP and tRFC of at least 1, a refresher that waits with an idle
    -- sequencer holds its request from the grant on and ends it with the cycle in which the
    -- sequence is done, the last of `postponing` times `tRP + tRFC + 1` cycles, whatever
    -- `cmd.ready` does.
    pub grant_runs_to_end :
        (ready : Bool) (h : List Bool)
        → length h < refresh_cycles
        → let o = outputs g t z ready (after_grant s h) in
          (o.last ≡ (length h + 1 == refresh_cycles)) × (o.valid ≡ not o.last)
    grant_runs_to_end ready h l =
        let s' = after_grant s h in
        let r = after_grant-Refreshing h l in
        rw (refreshing ready s' plain r.in_refresh, done_at (length h) s' l r) (ground arith)
