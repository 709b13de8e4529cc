-- ===== src/Frontend/Bist/Written.antt =====
-- What `_LiteDRAMBISTGenerator` of litedram/frontend/bist.py has written when it is done.
use mathlib.Core.Path.{subst}
use native.Mathlib.Nat.{mod-eq_of_lt}
use litedram.Base.{
  ℕ, zero, suc, ◌+◌, ◌/◌, ◌%◌, ◌^◌, ◌≤◌, ◌<◌, ◌≡◌, refl, sym, ap, ◌∙◌, arith, Bool, true, false,
  List, [], ◌∷◌, ◌==◌, bit_and, if◌then◌else◌, pred_mod_of_pos,
}
use litedram.Frontend.Bist.{
  addr_mask, Generator, generator_reset, generator_o, generator_step, Settings, at_end,
  word_address, word_data, State, Inputs, Writer, writes, next, next_counter, next_ticks, step, run,
}

-- A word that the DMA takes: its address and its data.
pub record Word : Type 0 where
  pub address : ℕ
  pub content : ℕ

abbrev word : Settings → Generator → Generator → Word
word g a d = record {
  address = word_address g a;
  content = word_data g (generator_o g.random_data d);
}

-- The words the DMA has taken, the most recent first.
abbrev pub written : Settings → ℕ → List Inputs → List Word
written g counter [] = []
written g counter (i ∷ h) =
    let s = run g counter h in
    if writes i.sink_ready s.fsm
    then word g s.addr_gen s.data_gen ∷ written g counter h
    else written g counter h

-- The generator after `n` words, and the first `n` words of the pattern, the last one first.
abbrev pub generator_at : ℕ → Generator
generator_at zero = generator_reset
generator_at (suc n) = generator_step true (generator_at n)

abbrev pub pattern_words : Settings → ℕ → List Word
pattern_words g zero = []
pattern_words g (suc n) = word g (generator_at n) (generator_at n) ∷ pattern_words g n

abbrev pub words : Settings → ℕ
words g = g.length / 2 ^ g.ashift

-- The place of the FSM after `n` words.
abbrev Place : Settings → ℕ → ℕ → State → Type 0
Place g n counter State.idle = n ≡ 0
Place g n counter State.wait = (counter ≡ n) × (n < words g)
Place g n counter State.run_state = (counter ≡ n) × (n < words g)
Place g n counter State.await_fifo_empty = n ≡ words g
Place g n counter State.done = n ≡ words g

record Progress (g : Settings) (s : Writer) (ws : List Word) : Type 0 where
  n : ℕ
  data_at : s.data_gen ≡ generator_at n
  addr_at : s.addr_gen ≡ generator_at n
  all : ws ≡ pattern_words g n
  place : Place g n s.cmd_counter s.fsm

pub at_end_lem :
    (g : Settings) (n : ℕ)
    → n < words g
    → words g ≤ 2 ^ g.address_width
    → at_end g n ≡ (n + 1 == words g)
unfolding at_end
at_end_lem g n l fits =
    ap (λ k. n == k) (pred_mod_of_pos (2 ^ g.address_width) (words g) (omega arith) fits)
    ∙ ground (arith, l)

-- The FSM after a word, at its end or not.
after_word :
    (g : Settings) (n : ℕ) (cascade e : Bool)
    → n < words g
    → words g ≤ 2 ^ g.address_width
    → e ≡ (n + 1 == words g)
    → Place g
        (suc n)
        ((n + 1) % 2 ^ g.address_width)
        (if e then State.await_fifo_empty else if cascade then State.run_state else State.wait)
after_word g n cascade true l fits e = ground (arith, e)
after_word g n true false l fits e =
    (mod-eq_of_lt (ground (arith, e)) ∙ omega arith, ground (arith, e))
after_word g n false false l fits e =
    (mod-eq_of_lt (ground (arith, e)) ∙ omega arith, ground (arith, e))

step-Progress :
    (g : Settings) (start cascade ready valid : Bool) (st : State) (counter ticks : ℕ)
    (d a : Generator) (ws : List Word)
    → let i : Inputs = record {
      start = start;
      run_cascade_in = cascade;
      sink_ready = ready;
      fifo_valid = valid;
    } in
      let s : Writer = record {
        fsm = st;
        cmd_counter = counter;
        ticks = ticks;
        data_gen = d;
        addr_gen = a;
      } in
      1 ≤ words g
      → words g ≤ 2 ^ g.address_width
      → Progress g s ws
      → Progress g (step g i s) (if writes ready st then word g a d ∷ ws else ws)
unfolding step next next_counter next_ticks generator_step
step-Progress g true cascade ready valid State.idle counter ticks d a ws pos fits p = record {
  n = p.n;
  data_at = p.data_at;
  addr_at = p.addr_at;
  all = p.all;
  place = (sym p.place, omega (arith, p.place, pos));
}
step-Progress g false cascade ready valid State.idle counter ticks d a ws pos fits p = record {
  n = p.n;
  data_at = p.data_at;
  addr_at = p.addr_at;
  all = p.all;
  place = p.place;
}
step-Progress g start true ready valid State.wait counter ticks d a ws pos fits p = record {
  n = p.n;
  data_at = p.data_at;
  addr_at = p.addr_at;
  all = p.all;
  place = p.place;
}
step-Progress g start false ready valid State.wait counter ticks d a ws pos fits p = record {
  n = p.n;
  data_at = p.data_at;
  addr_at = p.addr_at;
  all = p.all;
  place = p.place;
}
step-Progress g start cascade false valid State.run_state counter ticks d a ws pos fits p = record {
  n = p.n;
  data_at = p.data_at;
  addr_at = p.addr_at;
  all = p.all;
  place = p.place;
}
step-Progress g start cascade true valid State.run_state counter ticks d a ws pos fits p =
    let (c, l) = p.place in
    record {
      n = suc p.n;
      data_at = ap (generator_step true) p.data_at;
      addr_at = ap (generator_step true) p.addr_at;
      all = (λ k. word g (p.addr_at k) (p.data_at k) ∷ p.all k);
      place = rw c (after_word g p.n cascade (at_end g p.n) l fits (at_end_lem g p.n l fits));
    }
step-Progress g start cascade ready true State.await_fifo_empty counter ticks d a ws pos fits p =
    record { n = p.n; data_at = p.data_at; addr_at = p.addr_at; all = p.all; place = p.place }
step-Progress g start cascade ready false State.await_fifo_empty counter ticks d a ws pos fits p =
    record { n = p.n; data_at = p.data_at; addr_at = p.addr_at; all = p.all; place = p.place }
step-Progress g start cascade ready valid State.done counter ticks d a ws pos fits p = record {
  n = p.n;
  data_at = p.data_at;
  addr_at = p.addr_at;
  all = p.all;
  place = p.place;
}

run-Progress :
    (g : Settings) (counter : ℕ) (h : List Inputs)
    → 1 ≤ words g
    → words g ≤ 2 ^ g.address_width
    → Progress g (run g counter h) (written g counter h)
unfolding run
run-Progress g counter [] pos fits = record {
  n = 0;
  data_at = refl;
  addr_at = refl;
  all = refl;
  place = refl;
}
run-Progress g counter (i ∷ h) pos fits =
    let s = run g counter h in
    step-Progress g i.start i.run_cascade_in i.sink_ready i.fifo_valid s.fsm s.cmd_counter s.ticks
      s.data_gen s.addr_gen (written g counter h) pos fits (run-Progress g counter h pos fits)

-- For a length of at least one word that the counter can hold, when the generator is done it has
-- written, whatever the cascade and the port did, exactly the words of the pattern below the length
-- in their order, word `k` with the address and the data that the generators give after `k` steps.
-- The length is what remains of the register `length`, which counts bytes, without its lowest `ashift`
-- bits.
pub done_written :
    (g : Settings) (counter : ℕ) (h : List Inputs)
    → 1 ≤ words g
    → words g ≤ 2 ^ g.address_width
    → (run g counter h).fsm ≡ State.done
    → written g counter h ≡ pattern_words g (words g)
done_written g counter h pos fits e =
    let p = run-Progress g counter h pos fits in
    p.all ∙ ap (pattern_words g) (subst (Place g p.n (run g counter h).cmd_counter) e p.place)

count_at : (n : ℕ) → n < 2 ^ 31 → (generator_at n).count ≡ n
unfolding generator_step
count_at zero l = refl
count_at (suc n) l =
    ap (λ k. (k + 1) % 2 ^ 31) (count_at n (omega arith)) ∙ mod-eq_of_lt (omega arith) ∙ omega arith

plain_word :
    (g : Settings) (n : ℕ) (s : Generator)
    → g.random_data ≡ false
    → g.random_addr ≡ false
    → s.count ≡ n
    → word g s s ≡ record {
      address = (g.base / 2 ^ g.ashift + bit_and n (addr_mask g)) % 2 ^ g.address_width;
      content = word_data g n;
    }
unfolding word_address generator_o
plain_word g n s d a e = simp (d, a, e)

-- Where neither the data nor the addresses are random, word `k` of the pattern, for `k` below
-- 2 ^ 31, holds copies of `k`, and it stands at the base plus `k` under the mask.
pattern_counts :
    (g : Settings) (n : ℕ)
    → g.random_data ≡ false
    → g.random_addr ≡ false
    → n < 2 ^ 31
    → pattern_words g (suc n)
      ≡ record {
        address = (g.base / 2 ^ g.ashift + bit_and n (addr_mask g)) % 2 ^ g.address_width;
        content = word_data g n;
      }
        ∷ pattern_words g n
pattern_counts g n d a l =
    ap (λ x. x ∷ pattern_words g n) (plain_word g n (generator_at n) d a (count_at n l))
