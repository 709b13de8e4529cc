-- ===== src/Frontend/Bist/Checker/Asked.antt =====
-- What `_LiteDRAMBISTChecker` of litedram/frontend/bist.py has asked for when its commands are done.
use mathlib.Core.Path.{subst}
use native.Mathlib.Nat.{mod-eq_of_lt}
use litedram.Base.{
  ℕ, suc, ◌+◌, ◌%◌, ◌^◌, ◌≤◌, ◌<◌, ◌≡◌, refl, sym, ap, ◌∙◌, arith, Bool, true, false, List, [], ◌∷◌,
  ◌==◌, if◌then◌else◌, map,
}
use litedram.Frontend.Bist.{Generator, generator_step, Settings, at_end, word_address}
use litedram.Frontend.Bist.Written.{Word, words, generator_at, pattern_words, at_end_lem}
use litedram.Frontend.Bist.Checker.{CmdState, Inputs, asks, next_cmd, next_cmd_counter, step, run}

-- The addresses that the DMA has taken, the most recent first.
abbrev pub asked : Settings → (c d : ℕ) → List Inputs → List ℕ
asked g c d [] = []
asked g c d (i ∷ h) =
    let s = run g c d h in
    if asks i.sink_ready s.cmd_fsm then word_address g s.addr_gen ∷ asked g c d h else asked g c d h

abbrev pub addresses : List Word → List ℕ
addresses ws = map (λ (w : Word). w.address) ws

-- The place of the FSM after `n` words.
abbrev CmdPlace : Settings → ℕ → ℕ → CmdState → Type 0
CmdPlace g n counter CmdState.idle = n ≡ 0
CmdPlace g n counter CmdState.wait = (counter ≡ n) × (n < words g)
CmdPlace g n counter CmdState.run_state = (counter ≡ n) × (n < words g)
CmdPlace g n counter CmdState.done = n ≡ words g

record Asked (g : Settings) (st : CmdState) (counter : ℕ) (gen : Generator) (ads : List ℕ)
    : Type 0 where
  n : ℕ
  gen_at : gen ≡ generator_at n
  all : ads ≡ addresses (pattern_words g n)
  place : CmdPlace g n counter st

-- The FSM of the commands after a word, at its end or not.
after_asking :
    (g : Settings) (n : ℕ) (cascade e : Bool)
    → n < words g
    → words g ≤ 2 ^ g.address_width
    → e ≡ (n + 1 == words g)
    → CmdPlace g
        (suc n)
        ((n + 1) % 2 ^ g.address_width)
        (if e then CmdState.done else if cascade then CmdState.run_state else CmdState.wait)
after_asking g n cascade true l fits e = ground (arith, e)
after_asking g n true false l fits e =
    (mod-eq_of_lt (ground (arith, e)) ∙ omega arith, ground (arith, e))
after_asking g n false false l fits e =
    (mod-eq_of_lt (ground (arith, e)) ∙ omega arith, ground (arith, e))

step-Asked :
    (g : Settings) (i : Inputs) (start cascade ready : Bool) (st : CmdState) (counter : ℕ)
    (a : Generator) (ads : List ℕ)
    → i.start ≡ start
    → i.run_cascade_in ≡ cascade
    → i.sink_ready ≡ ready
    → 1 ≤ words g
    → words g ≤ 2 ^ g.address_width
    → Asked g st counter a ads
    → Asked g
        (next_cmd g i counter st)
        (next_cmd_counter g i counter st)
        (generator_step (asks i.sink_ready st) a)
        (if asks i.sink_ready st then word_address g a ∷ ads else ads)
unfolding next_cmd next_cmd_counter generator_step
step-Asked g i true cascade ready CmdState.idle counter a ads e f r pos fits p = rw e (record {
  n = p.n;
  gen_at = p.gen_at;
  all = p.all;
  place = (sym p.place, omega (arith, p.place, pos));
})
step-Asked g i false cascade ready CmdState.idle counter a ads e f r pos fits p = rw e p
step-Asked g i start true ready CmdState.wait counter a ads e f r pos fits p =
    rw f (record { n = p.n; gen_at = p.gen_at; all = p.all; place = p.place })
step-Asked g i start false ready CmdState.wait counter a ads e f r pos fits p = rw f p
step-Asked g i start cascade false CmdState.run_state counter a ads e f r pos fits p = rw r p
step-Asked g i start cascade true CmdState.run_state counter a ads e f r pos fits p =
    let (c, l) = p.place in
    rw r (record {
      n = suc p.n;
      gen_at = ap (generator_step true) p.gen_at;
      all = (λ k. word_address g (p.gen_at k) ∷ p.all k);
      place =
          rw c
            (after_asking g p.n i.run_cascade_in (at_end g p.n) l fits (at_end_lem g p.n l fits));
    })
step-Asked g i start cascade ready CmdState.done counter a ads e f r pos fits p = p

run-Asked :
    (g : Settings) (c d : ℕ) (h : List Inputs)
    → 1 ≤ words g
    → words g ≤ 2 ^ g.address_width
    → let s = run g c d h in Asked g s.cmd_fsm s.cmd_counter s.addr_gen (asked g c d h)
unfolding run step
run-Asked g c d [] pos fits = record { n = 0; gen_at = refl; all = refl; place = refl }
run-Asked g c d (i ∷ h) pos fits =
    let s = run g c d h in
    step-Asked g i i.start i.run_cascade_in i.sink_ready s.cmd_fsm s.cmd_counter s.addr_gen
      (asked g c d h) refl refl refl pos fits (run-Asked g c d h pos fits)

-- For a length of at least one word that the counter can hold, when the FSM of the commands is done,
-- whatever the cascade and the port did, it has asked for the addresses of the pattern, each once
-- for each of its words and in their order.
done_asked :
    (g : Settings) (c d : ℕ) (h : List Inputs)
    → 1 ≤ words g
    → words g ≤ 2 ^ g.address_width
    → (run g c d h).cmd_fsm ≡ CmdState.done
    → asked g c d h ≡ addresses (pattern_words g (words g))
done_asked g c d h pos fits e =
    let p = run-Asked g c d h pos fits in
    p.all
    ∙ ap (λ n. addresses (pattern_words g n))
        (subst (CmdPlace g p.n (run g c d h).cmd_counter) e p.place)
