-- ===== src/Core/Bandwidth/Period.antt =====
-- The counts are those of one whole period of the command history.
use native.Mathlib.Decide.{dec_lt}
use native.Mathlib.Numerals.{towards_suc}
use mathlib.Core.Path.{subst}
use native.Mathlib.Nat.{
  mod-add-mod, mod-lt, mod-eq_of_lt, pow-suc, mod_self, div_self, div-eq_of_lt,
}
use litedram.Base.{
  ℕ, zero, suc, ◌+◌, ◌*◌, ◌/◌, ◌%◌, ◌^◌, ◌≤◌, ◌<◌, ◌≡◌, refl, sym, ap, ◌∙◌, arith, Bool, true,
  false, ◌&&◌, List, [], ◌∷◌, map, ◌==◌, if◌then◌else◌, length, take, drop, tail, popcount,
  two_pow-pos,
}
use litedram.Core.Bandwidth.{Inputs, Bandwidth, next_count, step, run}

abbrev pub read_accepted : Inputs → Bool
read_accepted i = (i.valid && i.ready) && i.is_read

abbrev pub write_accepted : Inputs → Bool
write_accepted i = (i.valid && i.ready) && i.is_write

-- How many cycles the current counts span.
abbrev pub span : ℕ → Bandwidth → ℕ
span period_bits s = if s.period then 2 ^ period_bits else s.counter

-- `now` counts the last `k` cycles before the current one, `last` the `p` cycles before those.
record Tallies (p k : ℕ) (hits : List Bool) (now last : ℕ) : Type 0 where
  current : now ≡ popcount (take k (tail hits))
  complete : last ≡ popcount (take p (drop k (tail hits)))

abbrev head_or_false : List Bool → Bool
head_or_false [] = false
head_or_false (b ∷ bs) = b

popcount-take_nil : (k : ℕ) → popcount (take k []) ≡ 0
popcount-take_nil zero = refl
popcount-take_nil (suc k) = refl

drop_nil : (k : ℕ) → drop {A = Bool} k [] ≡ []
drop_nil zero = refl
drop_nil (suc k) = refl

popcount-take-le : (k : ℕ) (bs : List Bool) → popcount (take k bs) ≤ k
popcount-take-le zero bs = omega arith
popcount-take-le (suc k) [] = omega arith
popcount-take-le (suc k) (true ∷ bs) = omega (arith, popcount-take-le k bs)
popcount-take-le (suc k) (false ∷ bs) = omega (arith, popcount-take-le k bs)

popcount-cons : (v : Bool) (bs : List Bool) → popcount (v ∷ bs) ≡ popcount (v ∷ []) + popcount bs
popcount-cons true bs = omega arith
popcount-cons false bs = omega arith

next_count_boundary :
    (b : ℕ) (a q : Bool) (n : ℕ) → next_count b true a q n ≡ popcount ((a && q) ∷ [])
unfolding next_count
next_count_boundary b true true n = refl
next_count_boundary b true false n = refl
next_count_boundary b false q n = refl

next_count_inside :
    (b : ℕ) (a q : Bool) (n : ℕ)
    → n < 2 ^ b
    → next_count b false a q n ≡ popcount ((a && q) ∷ []) + n
unfolding next_count
next_count_inside b true true n h =
    mod-eq_of_lt {n = n + 1} {m = 2 ^ (b + 1)} (omega (arith, pow-add-one b)) ∙ omega arith
  where
    pow-add-one : (k : ℕ) → 2 ^ (k + 1) ≡ 2 * 2 ^ k
    pow-add-one k = simp towards_suc (omega (arith, pow-suc 2 k))
next_count_inside b true false n h = omega arith
next_count_inside b false q n h = omega arith

take-one : (bs : List Bool) → popcount (take 1 bs) ≡ popcount (head_or_false bs ∷ [])
take-one [] = refl
take-one (true ∷ bs) = refl
take-one (false ∷ bs) = refl

take-suc-head :
    (c : ℕ) (bs : List Bool)
    → popcount (take (suc c) bs) ≡ popcount (head_or_false bs ∷ []) + popcount (take c (tail bs))
take-suc-head c [] = omega (arith, popcount-take_nil c)
take-suc-head c (x ∷ bs) = popcount-cons x (take c bs)

drop-suc-tail : (c : ℕ) (bs : List Bool) → drop (suc c) bs ≡ drop c (tail bs)
drop-suc-tail c [] = sym (drop_nil c)
drop-suc-tail c (x ∷ bs) = refl

Tallies_boundary :
    (b : ℕ) (a q v : Bool) (hits : List Bool) (n l : ℕ)
    → head_or_false hits ≡ (a && q)
    → Tallies (2 ^ b) (2 ^ b) hits n l
    → Tallies (2 ^ b) 1 (v ∷ hits) (next_count b true a q n) n
Tallies_boundary b a q v hits n l e t = record {
  current = next_count_boundary b a q n ∙ ap (λ x. popcount (x ∷ [])) (sym e) ∙ sym (take-one hits);
  complete = t.current ∙ ap (λ x. popcount (take (2 ^ b) x)) (sym (drop-suc-tail 0 hits));
}

Tallies_inside :
    (b c : ℕ) (a q v : Bool) (hits : List Bool) (n l : ℕ)
    → head_or_false hits ≡ (a && q)
    → c < 2 ^ b
    → Tallies (2 ^ b) c hits n l
    → Tallies (2 ^ b) (suc c) (v ∷ hits) (next_count b false a q n) l
Tallies_inside b c a q v hits n l e fits t = record {
  current =
      next_count_inside b a q n (omega (arith, t.current, popcount-take-le c (tail hits)))
      ∙ ap (λ x. popcount (x ∷ []) + n) (sym e)
      ∙ ap (λ x. popcount (head_or_false hits ∷ []) + x) t.current
      ∙ sym (take-suc-head c hits);
  complete = t.complete ∙ ap (λ x. popcount (take (2 ^ b) x)) (sym (drop-suc-tail c hits));
}

record Measures (b : ℕ) (h : List Inputs) (s : Bandwidth) : Type 0 where
  small : s.counter < 2 ^ b
  wrapped : s.period ≡ true → s.counter ≡ 0
  accepted_read :
      head_or_false (map read_accepted h) ≡ ((s.cmd_valid && s.cmd_ready) && s.cmd_is_read)
  accepted_write :
      head_or_false (map write_accepted h) ≡ ((s.cmd_valid && s.cmd_ready) && s.cmd_is_write)
  reads : Tallies (2 ^ b) (span b s) (map read_accepted h) s.nreads s.nreads_r
  writes : Tallies (2 ^ b) (span b s) (map write_accepted h) s.nwrites s.nwrites_r

span_next : (c p : ℕ) → c < p → (if (c + 1) / p % 2 == 1 then p else (c + 1) % p) ≡ suc c
span_next c p small = elim (dec_lt (c + 1) p) [
  | yes h ↦
      rw (mod-eq_of_lt {n = c + 1} {m = p} h, div-eq_of_lt {n = c + 1} {m = p} h) (omega arith)
  | no h ↦ let e : c + 1 ≡ p = omega arith in rw (e, div_self {n = p} (omega arith)) (omega arith)
]

-- The counter wraps into `period`, so the next span is one more than the counter.
next_span :
    (b : ℕ) (i : Inputs) (s : Bandwidth) → s.counter < 2 ^ b → span b (step b i s) ≡ suc s.counter
unfolding step
next_span b i s small = span_next s.counter (2 ^ b) small

next_wrapped : (c p : ℕ) → c < p → ((c + 1) / p % 2 == 1) ≡ true → (c + 1) % p ≡ 0
next_wrapped c p small e = elim (dec_lt (c + 1) p) [
  | yes h ↦ let z : (c + 1) / p ≡ 0 = div-eq_of_lt {n = c + 1} {m = p} h in ground (arith, z)
  | no h ↦ let q : c + 1 ≡ p = omega arith in rw q (mod_self p)
]

step-Tallies :
    (b c : ℕ) (period a q v : Bool) (hits : List Bool) (n l : ℕ)
    → c < 2 ^ b
    → (period ≡ true → c ≡ 0)
    → head_or_false hits ≡ (a && q)
    → Tallies (2 ^ b) (if period then 2 ^ b else c) hits n l
    → Tallies (2 ^ b) (suc c) (v ∷ hits) (next_count b period a q n) (if period then n else l)
step-Tallies b c true a q v hits n l small wrapped e t =
    rw (wrapped refl) (Tallies_boundary b a q v hits n l e t)
step-Tallies b c false a q v hits n l small wrapped e t =
    Tallies_inside b c a q v hits n l e small t

Tallies_at :
    {p k k' : ℕ} {hits : List Bool} {now last : ℕ}
    → k ≡ k'
    → Tallies p k' hits now last
    → Tallies p k hits now last
Tallies_at {p} {k} {k'} {hits} {now} {last} e t = subst (λ j. Tallies p j hits now last) (sym e) t

step-Measures :
    (b : ℕ) (i : Inputs) (h : List Inputs) (s : Bandwidth)
    → Measures b h s
    → Measures b (i ∷ h) (step b i s)
unfolding step
step-Measures b i h s m = record {
  small = mod-lt (s.counter + 1) (two_pow-pos b);
  wrapped = next_wrapped s.counter (2 ^ b) m.small;
  accepted_read = refl;
  accepted_write = refl;
  reads = Tallies_at (span_next s.counter (2 ^ b) m.small) (
      step-Tallies b s.counter s.period (s.cmd_valid && s.cmd_ready) s.cmd_is_read (read_accepted i)
        _ _ _ m.small m.wrapped m.accepted_read m.reads);
  writes = Tallies_at (span_next s.counter (2 ^ b) m.small) (
      step-Tallies b s.counter s.period (s.cmd_valid && s.cmd_ready) s.cmd_is_write
        (write_accepted i) _ _ _ m.small m.wrapped m.accepted_write m.writes);
}

run-Measures : (b : ℕ) (h : List Inputs) → Measures b h (run b h)
unfolding run
run-Measures b [] = record {
  small = two_pow-pos b;
  wrapped = λ e. refl;
  accepted_read = refl;
  accepted_write = refl;
  reads = record { current = refl; complete = sym (popcount-take_nil (2 ^ b)) };
  writes = record { current = refl; complete = sym (popcount-take_nil (2 ^ b)) };
}
run-Measures b (i ∷ h) = step-Measures b i h _ (run-Measures b h)

-- The commands that were accepted in the last whole period before a cycle.
abbrev pub last_period : ℕ → List Inputs → (Inputs → Bool) → ℕ
last_period b h kind = popcount (take (2 ^ b) (drop (span b (run b h)) (tail (map kind h))))

copied : (u : Bool) {x y : ℕ} (old : ℕ) → x ≡ y → (if u then x else old) ≡ (if u then y else old)
copied u old e = rw e

-- A write to `update` copies into the status registers how many read and write commands were
-- accepted in the last whole period, whatever the command history; without one they stay.
pub update_copies_period :
    (b : ℕ) (i : Inputs) (h : List Inputs)
    → let s' = run b (i ∷ h) in
      (s'.nreads_status
        ≡ (if i.update then last_period b h read_accepted else (run b h).nreads_status))
      × (s'.nwrites_status
          ≡ (if i.update then last_period b h write_accepted else (run b h).nwrites_status))
unfolding run step
update_copies_period b i h = (
  copied i.update _ (run-Measures b h).reads.complete,
  copied i.update _ (run-Measures b h).writes.complete,
)

counter-run : (b : ℕ) (h : List Inputs) → (run b h).counter ≡ length h % 2 ^ b
unfolding run step
counter-run b [] = sym (mod-eq_of_lt {n = 0} {m = 2 ^ b} (two_pow-pos b))
counter-run b (i ∷ h) =
    ap (λ c. (c + 1) % 2 ^ b) (counter-run b h)
    ∙ mod-add-mod (length h) (2 ^ b) 1
    ∙ ap (λ n. n % 2 ^ b) (omega arith)

-- How far the current period has come: the counts span 1 to `2 ^ b` cycles, in turn.
span-run : (b : ℕ) (i : Inputs) (h : List Inputs) → span b (run b (i ∷ h)) ≡ length h % 2 ^ b + 1
unfolding run
span-run b i h = next_span b i (run b h) (run-Measures b h).small ∙ omega (arith, counter-run b h)
