-- ===== src/Core/Multiplexer/Fairness.antt =====
-- How long reads may hold off writes, and writes reads.
use litedram.Base.{
  ℕ, zero, suc, ◌+◌, ◌-◌, ◌≤◌, ◌≡◌, refl, arith, Bool, true, false, List, [], ◌∷◌, if◌then◌else◌,
}
use litedram.Core.Multiplexer.{
  Settings, Inputs, State, max_time, time_step, any_read, any_write, every_grant, next, enter_rtw,
  step, reset, reading, writing, run,
}

-- For how many cycles, up to the last one, the FSM was in states of a kind.
abbrev pub cycles_in : (State → Bool) → Settings → List Inputs → ℕ
cycles_in kind g [] = 0
cycles_in kind g (i ∷ h) = if kind (run g h).fsm then suc (cycles_in kind g h) else 0

time_step-le :
    (timeout time n : ℕ) (en : Bool)
    → 1 ≤ timeout
    → time ≤ timeout - 1 - n
    → time_step timeout en time ≤ timeout - 1 - (if en then suc n else 0)
unfolding time_step
time_step-le timeout time n en pos b = ground arith

read_time-le :
    (g : Settings) (h : List Inputs)
    → 1 ≤ g.read_time
    → (run g h).read_time ≤ g.read_time - 1 - cycles_in reading g h
unfolding run reset step
read_time-le g [] pos = omega arith
read_time-le g (i ∷ h) pos =
    time_step-le g.read_time _ _ (reading (run g h).fsm) pos (read_time-le g h pos)

write_time-le :
    (g : Settings) (h : List Inputs)
    → 1 ≤ g.write_time
    → (run g h).write_time ≤ g.write_time - 1 - cycles_in writing g h
unfolding run reset step
write_time-le g [] pos = omega arith
write_time-le g (i ∷ h) pos =
    time_step-le g.write_time _ _ (writing (run g h).fsm) pos (write_time-le g h pos)

enter_rtw-reading : (n : ℕ) → reading (enter_rtw n) ≡ false
enter_rtw-reading zero = refl
enter_rtw-reading (suc n) = refl

leaves_read :
    (g : Settings) (reads max_write go last twtr : Bool) (s : State)
    → s ≡ State.read
    → reading (next g reads true true max_write go last twtr s) ≡ false
unfolding next
leaves_read g reads max_write true last twtr s e = rw e
leaves_read g true max_write false last twtr s e = rw e (enter_rtw-reading (g.read_latency - 1))
leaves_read g false max_write false last twtr s e = rw e (enter_rtw-reading (g.read_latency - 1))

leaves_write :
    (g : Settings) (writes max_read go last twtr : Bool) (s : State)
    → s ≡ State.write
    → writing (next g true writes max_read true go last twtr s) ≡ false
unfolding next
leaves_write g writes max_read true last twtr s e = rw e
leaves_write g true max_read false last twtr s e = rw e
leaves_write g false max_read false last twtr s e = rw e

-- When the read time is not 0, the FSM has been reading for all of it, this cycle included, and
-- a write is available, it stops reading in the next cycle, whatever else is requested.
pub writes_not_starved :
    (g : Settings) (i : Inputs) (h : List Inputs)
    → 1 ≤ g.read_time
    → (run g h).fsm ≡ State.read
    → g.read_time ≤ cycles_in reading g h + 1
    → any_write (i.request ∷ i.requests) ≡ true
    → reading (run g (i ∷ h)).fsm ≡ false
unfolding run step
writes_not_starved g i h pos at long w =
    let late : max_time g.read_time (run g h).read_time ≡ true =
      ground (arith, read_time-le g h pos) in
    rw (w, late) (leaves_read g _ _ _ _ _ _ at)

-- When the write time is not 0, the FSM has been writing for all of it, this cycle included, and
-- a read is available, it stops writing in the next cycle, whatever else is requested.
pub reads_not_starved :
    (g : Settings) (i : Inputs) (h : List Inputs)
    → 1 ≤ g.write_time
    → (run g h).fsm ≡ State.write
    → g.write_time ≤ cycles_in writing g h + 1
    → any_read (i.request ∷ i.requests) ≡ true
    → writing (run g (i ∷ h)).fsm ≡ false
unfolding run step
reads_not_starved g i h pos at long r =
    let late : max_time g.write_time (run g h).write_time ≡ true =
      ground (arith, write_time-le g h pos) in
    rw (r, late)
      (leaves_write g (any_write (i.request ∷ i.requests))
        (max_time g.read_time (run g h).read_time) (every_grant i.refresh_gnts) i.refresh_last
        (run g h).twtrcon.ready (run g h).fsm at)
