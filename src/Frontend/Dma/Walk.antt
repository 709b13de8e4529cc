-- ===== src/Frontend/Dma/Walk.antt =====
-- The requests of a walk: from `base` on, `length` of them, then done.
use mathlib.Core.Path.{subst}
use litedram.Base.{
  ℕ, zero, suc, ◌+◌, ◌-◌, ◌%◌, ◌^◌, ◌≤◌, ◌<◌, ◌≡◌, refl, sym, ap, ◌∙◌, arith, Bool, true, false,
  List, [], ◌∷◌, if◌then◌else◌, ◌==◌, length, after, Bool-cases, inl, inr,
}
use litedram.Frontend.Dma.{
  State, Csr, Walker, walker_reset, walker_last, walker_address, walker_step, reader_accepts,
}

-- The state of an enabled walk after a history of `sink.ready`.
unfoldable pub walk_run : Csr → List Bool → Walker
unfolding walker_step reader_accepts
walk_run c h = after (λ ready w. walker_step c true (reader_accepts ready w) w) walker_reset h

-- The requests that were taken, the most recent first: the address and the `last` flag.
abbrev pub taken : Csr → List Bool → List (ℕ × Bool)
taken c [] = []
taken c (ready ∷ h) =
    let w = walk_run c h in
    if reader_accepts ready w
    then (walker_address c w.offset, walker_last c w.offset) ∷ taken c h
    else taken c h

-- The first `n` requests of a walk.
abbrev pub walk : Csr → ℕ → List (ℕ × Bool)
walk c zero = []
walk c (suc n) = ((c.base + n) % 2 ^ c.width, suc n == c.length) ∷ walk c n

abbrev pub is_done : State → Bool
is_done State.done = true
is_done _ = false

record Progress (c : Csr) (w : Walker) (requests : List (ℕ × Bool)) : Type 0 where
  walked : requests ≡ walk c (length requests)
  before : w.fsm ≡ State.idle → length requests ≡ 0
  within : w.fsm ≡ State.run_state → (w.offset ≡ length requests) × (length requests < c.length)
  over : w.fsm ≡ State.done → length requests ≡ c.length

last_offset :
    (c : Csr) (n : ℕ)
    → 1 ≤ c.length
    → c.length < 2 ^ c.width
    → n < c.length
    → walker_last c n ≡ (suc n == c.length)
unfolding walker_last
last_offset c n pos small l =
    let e : (c.length + 2 ^ c.width - 1) % 2 ^ c.width ≡ c.length - 1 = grind arith in
    ground (arith, e)

-- The requests after a cycle.
abbrev more : Csr → Bool → Walker → List (ℕ × Bool) → List (ℕ × Bool)
more c ready w requests =
    if reader_accepts ready w
    then (walker_address c w.offset, walker_last c w.offset) ∷ requests
    else requests

step-Progress :
    (c : Csr) (ready : Bool) (st : State) (offset : ℕ) (requests : List (ℕ × Bool))
    → let w : Walker = record { fsm = st; offset = offset } in
      c.loop ≡ false
      → 1 ≤ c.length
      → c.length < 2 ^ c.width
      → Progress c w requests
      → Progress c (walker_step c true (reader_accepts ready w) w) (more c ready w requests)
unfolding walker_step reader_accepts walker_address
step-Progress c ready State.idle offset requests plain pos small p = record {
  walked = p.walked;
  before = λ e. cc;
  within = λ e. (omega (arith, p.before refl), omega (arith, p.before refl));
  over = λ e. cc;
}
step-Progress c ready State.done offset requests plain pos small p = p
step-Progress c false State.run_state offset requests plain pos small p = p
step-Progress c true State.run_state offset requests plain pos small p =
    let (at, l) = p.within refl in
    let last = ap (walker_last c) at ∙ last_offset c (length requests) pos small l in
    let request : ◌≡◌ {A = ℕ × Bool} ((c.base + offset) % 2 ^ c.width, walker_last c offset)
        ((c.base + length requests) % 2 ^ c.width, suc (length requests) == c.length) =
      λ i. ((c.base + at i) % 2 ^ c.width, last i) in
    let walked : ((c.base + offset) % 2 ^ c.width, walker_last c offset) ∷ requests
        ≡ walk c (suc (length requests)) =
      λ i. request i ∷ p.walked i in
    let w : Walker = record { fsm = State.run_state; offset = offset } in
    let small_next : (offset + 1) % 2 ^ c.width ≡ suc (length requests) = grind arith in
    elim (Bool-cases (suc (length requests) == c.length)) [
      | inl t ↦
          let stops : walker_step c true true w
              ≡ record { fsm = State.done; offset = (offset + 1) % 2 ^ c.width } =
            rw (last ∙ t, plain) refl in
          subst (λ x. Progress c x (more c true w requests)) (sym stops)
            (record {
              walked = walked;
              before = λ e. cc;
              within = λ e. cc;
              over = λ e. ground (arith, t);
            })
      | inr f ↦
          let goes_on : walker_step c true true w
              ≡ record { fsm = State.run_state; offset = (offset + 1) % 2 ^ c.width } =
            rw (last ∙ f) refl in
          subst (λ x. Progress c x (more c true w requests)) (sym goes_on)
            (record {
              walked = walked;
              before = λ e. cc;
              within = λ e. (small_next, ground (arith, f));
              over = λ e. cc;
            })
    ]

run-Progress :
    (c : Csr) (h : List Bool)
    → c.loop ≡ false
    → 1 ≤ c.length
    → c.length < 2 ^ c.width
    → Progress c (walk_run c h) (taken c h)
unfolding walk_run
run-Progress c [] plain pos small = record {
  walked = refl;
  before = λ e. refl;
  within = λ e. cc;
  over = λ e. cc;
}
run-Progress c (ready ∷ h) plain pos small =
    step-Progress c ready (walk_run c h).fsm (walk_run c h).offset (taken c h) plain pos small
      (run-Progress c h plain pos small)

counted :
    (c : Csr) (st : State) (offset : ℕ) (requests : List (ℕ × Bool))
    → 1 ≤ c.length
    → Progress c (record { fsm = st; offset = offset }) requests
    → (length requests ≤ c.length) × (is_done st ≡ (length requests == c.length))
counted c State.idle offset requests pos p = ground (arith, p.before refl)
counted c State.run_state offset requests pos p = let (at, l) = p.within refl in ground (arith, l)
counted c State.done offset requests pos p = ground (arith, p.over refl)

-- With a length of at least 1 below the number of addresses, no looping, and whenever the requests
-- are taken, those taken are the first ones of the walk from `base`, in order and with the `last`
-- flag on the one that ends it; there are never more than `length`, and the walk is done exactly
-- when all are taken.
pub taken_walks :
    (c : Csr) (h : List Bool)
    → c.loop ≡ false
    → 1 ≤ c.length
    → c.length < 2 ^ c.width
    → (taken c h ≡ walk c (length (taken c h)))
      × (length (taken c h) ≤ c.length)
      × (is_done (walk_run c h).fsm ≡ (length (taken c h) == c.length))
taken_walks c h plain pos small =
    let p = run-Progress c h plain pos small in
    let k = counted c (walk_run c h).fsm (walk_run c h).offset (taken c h) pos p in
    (p.walked, k.0, k.1)
