-- ===== src/Frontend/Dma/Reservation.antt =====
-- The reservation of places keeps the reader's FIFO from overflowing.
use litedram.Base.{
  ℕ, ◌+◌, ◌-◌, ◌≤◌, ◌≡◌, ap, ◌∙◌, arith, Bool, true, ◌&&◌, List, [], ◌∷◌, if◌then◌else◌, ltb,
  length,
}
use litedram.Frontend.SyncFifo.{SyncFifo, sink_ready, length-pop, length-push, is_some-head?}
use litedram.Frontend.Dma.{
  Inputs, Reader, cmd_valid, issued, fifo_source_ready, res_source_ready, step, run,
}

-- The lengths of the two queues after a cycle.
next_length :
    {A : Type 0} {depth : ℕ} (f : SyncFifo A depth) (valid : Bool) (item : A) (ready : Bool)
    (s : f.State)
    → length (f.items (f.step valid item ready s))
      ≡ (if ready then length (f.items s) - 1 else length (f.items s))
        + (if valid && ltb (length (f.items s)) depth then 1 else 0)
next_length {depth = depth} f valid item ready s =
    ap length (f.items_step valid item ready s)
    ∙ length-push _ item _
    ∙ ap (λ (n : ℕ). n + (if valid && ltb (length (f.items s)) depth then 1 else 0))
        (length-pop ready (f.items s))

module _ {depth : ℕ} (res : SyncFifo Bool depth) (fifo : SyncFifo ℕ depth) where
  -- How many commands the port has accepted and not yet answered.
  abbrev pub outstanding : List Inputs → ℕ
  outstanding [] = 0
  outstanding (i ∷ h) =
      (if i.rdata_valid then outstanding h - 1 else outstanding h)
      + (if issued res fifo i (run res fifo h) then 1 else 0)

  -- The port answers only what it was asked.
  abbrev pub Answers : List Inputs → Type 0
  Answers [] = Unit
  Answers (i ∷ h) = (i.rdata_valid ≡ true → 1 ≤ outstanding h) × Answers h

  record Reserved (s : Reader res fifo) (waiting : ℕ) : Type 0 where
    places : length (res.items s.res_state) ≡ waiting + length (fifo.items s.fifo_state)
    bounded : length (res.items s.res_state) ≤ depth

  step-Reserved :
      (i : Inputs) (s : Reader res fifo) (waiting : ℕ)
      → (i.rdata_valid ≡ true → 1 ≤ waiting)
      → Reserved s waiting
      → Reserved (step res fifo i s) (
          (if i.rdata_valid then waiting - 1 else waiting) + (if issued res fifo i s then 1 else 0))
  unfolding step issued cmd_valid res_source_ready
  step-Reserved i s waiting answer r =
      let a =
        next_length res (issued res fifo i s) i.sink_last (res_source_ready res fifo i s)
          s.res_state in
      let b = next_length fifo i.rdata_valid i.rdata (fifo_source_ready res fifo i) s.fifo_state in
      let e = is_some-head? (fifo.items s.fifo_state) in
      record {
        places = ground (arith, a, b, e, r.places, r.bounded, answer);
        bounded = ground (arith, a, r.bounded);
      }

  run-Reserved : (h : List Inputs) → Answers h → Reserved (run res fifo h) (outstanding h)
  unfolding run
  run-Reserved [] a = record {
    places = rw (res.items_empty, fifo.items_empty);
    bounded = rw res.items_empty (omega arith);
  }
  run-Reserved (i ∷ h) a = step-Reserved i (run res fifo h) (outstanding h) a.0 (run-Reserved h a.1)

  -- If the port answers only what it was asked, a word that comes from it finds a place in the
  -- FIFO, whatever the source does and whenever the reader is disabled.
  pub answer_has_place :
      (i : Inputs) (h : List Inputs)
      → Answers (i ∷ h)
      → i.rdata_valid ≡ true
      → sink_ready fifo (run res fifo h).fifo_state ≡ true
  answer_has_place i h a v =
      let r = run-Reserved h a.1 in ground (arith, a.0 v, r.places, r.bounded)
