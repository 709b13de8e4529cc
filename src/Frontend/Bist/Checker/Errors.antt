-- ===== src/Frontend/Bist/Checker/Errors.antt =====
-- What `_LiteDRAMBISTChecker` of litedram/frontend/bist.py has counted when it is done.
use mathlib.Core.Path.{subst}
use native.Mathlib.Nat.{mod-eq_of_lt}
use litedram.Base.{
  ℕ, suc, ◌+◌, ◌%◌, ◌^◌, ◌≤◌, ◌<◌, ◌≡◌, refl, sym, ap, ◌∙◌, arith, Bool, true, false, List, [], ◌∷◌,
  ◌==◌, if◌then◌else◌, length, map, ◌↔◌,
}
use litedram.Frontend.Bist.{Generator, generator_step, Settings, at_end, generator_o, word_data}
use litedram.Frontend.Bist.Written.{Word, words, generator_at, pattern_words, at_end_lem}
use litedram.Frontend.Bist.Checker.{
  DataState, Inputs, receives, next_data, next_data_counter, differs, next_errors, step, run,
}

-- The words received, the most recent first.
abbrev pub received : Settings → (c d : ℕ) → List Inputs → List ℕ
received g c d [] = []
received g c d (i ∷ h) =
    if receives i.source_valid (run g c d h).data_fsm
    then i.source_data ∷ received g c d h
    else received g c d h

-- How many of the words are not those of the pattern.
abbrev pub mismatches : Settings → List ℕ → ℕ
mismatches g [] = 0
mismatches g (x ∷ xs) = (if differs g x (generator_at (length xs)) then 1 else 0) + mismatches g xs

abbrev pub contents : List Word → List ℕ
contents ws = map (λ (w : Word). w.content) ws

-- The place of the FSM after `n` words.
abbrev DataPlace : Settings → ℕ → ℕ → DataState → Type 0
DataPlace g n counter DataState.idle = n ≡ 0
DataPlace g n counter DataState.run_state = (counter ≡ n) × (n < words g)
DataPlace g n counter DataState.done = n ≡ words g

record Compared (g : Settings) (st : DataState) (counter : ℕ) (gen : Generator) (errors : ℕ)
    (xs : List ℕ) : Type 0 where
  gen_at : gen ≡ generator_at (length xs)
  counted : errors ≡ mismatches g xs % 2 ^ 32
  place : DataPlace g (length xs) counter st

-- The FSM of the data after a word.
after_comparing :
    (g : Settings) (n : ℕ) (e : Bool)
    → n < words g
    → words g ≤ 2 ^ g.address_width
    → e ≡ (n + 1 == words g)
    → DataPlace g
        (suc n)
        ((n + 1) % 2 ^ g.address_width)
        (if e then DataState.done else DataState.run_state)
after_comparing g n true l fits e = ground (arith, e)
after_comparing g n false l fits e =
    (mod-eq_of_lt (ground (arith, e)) ∙ omega arith, ground (arith, e))

count_error :
    (errors n : ℕ) (b : Bool)
    → errors ≡ n % 2 ^ 32
    → (if b then (errors + 1) % 2 ^ 32 else errors) ≡ ((if b then 1 else 0) + n) % 2 ^ 32
count_error errors n true e = omega (arith, e)
count_error errors n false e = omega (arith, e)

positive : {n : ℕ} → suc n ≡ 0 → ⊥
positive e = omega (arith, e)

step-Compared :
    (g : Settings) (i : Inputs) (start valid : Bool) (st : DataState) (counter : ℕ) (d : Generator)
    (errors : ℕ) (xs : List ℕ)
    → i.start ≡ start
    → i.source_valid ≡ valid
    → 1 ≤ words g
    → words g ≤ 2 ^ g.address_width
    → Compared g st counter d errors xs
    → Compared g
        (next_data g i counter st)
        (next_data_counter g i counter st)
        (generator_step (receives i.source_valid st) d)
        (next_errors g i d errors st)
        (if receives i.source_valid st then i.source_data ∷ xs else xs)
unfolding next_data next_data_counter next_errors generator_step
step-Compared g i true valid DataState.idle counter d errors [] e v pos fits p =
    rw e (record { gen_at = p.gen_at; counted = refl; place = (refl, pos) })
step-Compared g i true valid DataState.idle counter d errors (y ∷ ys) e v pos fits p =
    elim (positive p.place) [ ]
step-Compared g i false valid DataState.idle counter d errors xs e v pos fits p = rw e p
step-Compared g i start false DataState.run_state counter d errors xs e v pos fits p = rw v p
step-Compared g i start true DataState.run_state counter d errors xs e v pos fits p =
    let (c, l) = p.place in
    rw v (record {
      gen_at = ap (generator_step true) p.gen_at;
      counted =
          count_error errors (mismatches g xs) (differs g i.source_data d) p.counted
          ∙ ap
              (λ (s : Generator).
                ((if differs g i.source_data s then 1 else 0) + mismatches g xs) % 2 ^ 32)
              p.gen_at;
      place = rw c (
          after_comparing g (length xs) (at_end g (length xs)) l fits
            (at_end_lem g (length xs) l fits));
    })
step-Compared g i start valid DataState.done counter d errors xs e v pos fits p = p

run-Compared :
    (g : Settings) (c d : ℕ) (h : List Inputs)
    → 1 ≤ words g
    → words g ≤ 2 ^ g.address_width
    → let s = run g c d h in
      Compared g s.data_fsm s.data_counter s.data_gen s.errors (received g c d h)
unfolding run step
run-Compared g c d [] pos fits = record { gen_at = refl; counted = refl; place = refl }
run-Compared g c d (i ∷ h) pos fits =
    let s = run g c d h in
    step-Compared g i i.start i.source_valid s.data_fsm s.data_counter s.data_gen s.errors
      (received g c d h) refl refl pos fits (run-Compared g c d h pos fits)

cons_inj : {x y : ℕ} {xs ys : List ℕ} → x ∷ xs ≡ y ∷ ys → (x ≡ y) × (xs ≡ ys)
cons_inj e = (cc, cc)

mismatches-le : (g : Settings) (xs : List ℕ) → mismatches g xs ≤ length xs
mismatches-le g [] = omega arith
mismatches-le g (x ∷ xs) = ground (arith, mismatches-le g xs)

-- No mismatch is the same as the words of the pattern.
clean :
    (g : Settings) (xs : List ℕ)
    → (mismatches g xs ≡ 0) ↔ (xs ≡ contents (pattern_words g (length xs)))
unfolding differs
clean g [] = (λ e. refl, λ e. refl)
clean g (x ∷ xs) =
    let (here, back) = clean g xs in
    let w = word_data g (generator_o g.random_data (generator_at (length xs))) in
    (
      λ e.
          let none_here : x ≡ w = ground (arith, e) in
          let none_there : mismatches g xs ≡ 0 = ground (arith, e) in
          (λ k. none_here k ∷ here none_there k),
      λ e. let (h, t) = cons_inj e in let q : mismatches g xs ≡ 0 = back t in ground (arith, h, q),
    )

-- For a length of at least one word and of fewer than 2 ^ 32, which the counter can hold, when the
-- checker is done it has received as many words as the length says, the error count is the number of
-- those that differ from the word of the pattern at their place, and it is 0 exactly when all that
-- was received is the pattern. The length is what remains of the register `length`, which counts
-- bytes, without its lowest `ashift` bits.
pub done_errors :
    (g : Settings) (c d : ℕ) (h : List Inputs)
    → 1 ≤ words g
    → words g < 2 ^ 32
    → words g ≤ 2 ^ g.address_width
    → (run g c d h).data_fsm ≡ DataState.done
    → (length (received g c d h) ≡ words g)
      × ((run g c d h).errors ≡ mismatches g (received g c d h))
      × (((run g c d h).errors ≡ 0) ↔ (received g c d h ≡ contents (pattern_words g (words g))))
done_errors g c d h pos small fits e =
    let p = run-Compared g c d h pos fits in
    let xs = received g c d h in
    let all : length xs ≡ words g =
      subst (DataPlace g (length xs) (run g c d h).data_counter) e p.place in
    let exact : (run g c d h).errors ≡ mismatches g xs =
      p.counted ∙ mod-eq_of_lt (omega (arith, mismatches-le g xs, all, small)) in
    let (there, back) = clean g xs in
    let whole : contents (pattern_words g (length xs)) ≡ contents (pattern_words g (words g)) =
      ap (λ n. contents (pattern_words g n)) all in
    (all, exact, (λ z. there (sym exact ∙ z) ∙ whole, λ r. exact ∙ back (r ∙ sym whole)))
