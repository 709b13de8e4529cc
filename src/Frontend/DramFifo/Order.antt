-- ===== src/Frontend/DramFifo/Order.antt =====
-- The words of the FIFO are read in the order, and from the addresses, of their writing.
use native.Mathlib.Nat.{mod-eq_of_lt, mod-add-mod, mod_self, mod-lt}
use native.Mathlib.Decide.{dec_lt}
use litedram.Base.{
  ℕ, suc, ◌+◌, ◌-◌, ◌%◌, ◌^◌, ◌≤◌, ◌<◌, ◌≡◌, refl, sym, ap, ◌∙◌, arith, Bool, true, List, [], ◌∷◌,
  ◌==◌, ==_iff, Bool-cases, inl, inr, if◌then◌else◌,
}
use litedram.Frontend.DramFifo.{
  Settings, Ctrl, Inputs, inc, write, read, write_address, read_address, step, run,
}

-- How many words were written, and read.
abbrev pub written : Settings → List Inputs → ℕ
written g [] = 0
written g (i ∷ h) = if write g i (run g h) then suc (written g h) else written g h

abbrev pub taken : Settings → List Inputs → ℕ
taken g [] = 0
taken g (i ∷ h) = if read i (run g h) then suc (taken g h) else taken g h

-- The widths that `Signal(max=…)` gives hold the level and the addresses.
pub record Widths (g : Settings) : Type 0 where
  pub positive : 1 ≤ g.depth
  pub level : g.depth < 2 ^ g.level_width
  pub address : g.depth ≤ 2 ^ g.address_width

suc_mod : (d n : ℕ) → suc n % d ≡ (n % d + 1) % d
suc_mod d n =
    let e : suc n ≡ n + 1 = omega arith in ap (λ (k : ℕ). k % d) e ∙ sym (mod-add-mod n d 1)

next_mod : (d n : ℕ) → 1 ≤ d → suc n % d ≡ (if n % d == d - 1 then 0 else n % d + 1)
next_mod d n pos =
    let below : n % d < d = omega (arith, mod-lt n pos) in
    suc_mod d n ∙ elim (dec_lt (n % d + 1) d) [
      | yes p ↦ mod-eq_of_lt p ∙ ground (arith, p)
      | no q ↦
          let e : n % d + 1 ≡ d = omega arith in
          ap (λ (k : ℕ). k % d) e ∙ mod_self d ∙ ground (arith, e)
    ]

inc-mod : (w depth n : ℕ) → 1 ≤ depth → depth ≤ 2 ^ w → inc w depth (n % depth) ≡ suc n % depth
unfolding inc
inc-mod w depth n pos fits =
    let e = next_mod depth n pos in
    let below : n % depth < depth = omega (arith, mod-lt n pos) in
    elim (Bool-cases (depth == 2 ^ w)) [
      | inl t ↦
          let q : 2 ^ w ≡ depth = sym ((==_iff depth (2 ^ w)).0 t) in
          rw t (ap (λ (m : ℕ). (n % depth + 1) % m) q ∙ sym (suc_mod depth n))
      | inr f ↦
          let q : (n % depth + 1) % 2 ^ w ≡ n % depth + 1 = mod-eq_of_lt (ground (arith, f)) in
          rw f (ground (arith, e, q))
    ]

-- The pointers count modulo the depth, and the level is what is left to read.
pub record Counts (g : Settings) (s : Ctrl) (w r : ℕ) : Type 0 where
  pub level : w ≡ r + s.level
  pub within : s.level ≤ g.depth
  pub produce : s.produce ≡ w % g.depth
  pub consume : s.consume ≡ r % g.depth

wrap : (x m : ℕ) → x < m → (x + m) % m ≡ x
wrap x m h = grind arith

next_level :
    (l depth m : ℕ) (wr rd : Bool)
    → l ≤ depth
    → depth < m
    → (wr ≡ true → l < depth)
    → (rd ≡ true → 1 ≤ l)
    → (l + (if wr then 1 else 0) + m - (if rd then 1 else 0)) % m
      ≡ l + (if wr then 1 else 0) - (if rd then 1 else 0)
next_level l depth m wr rd le lt a b =
    ap (λ (n : ℕ). n % m)
      (let e : l + (if wr then 1 else 0) + m - (if rd then 1 else 0)
            ≡ l + (if wr then 1 else 0) - (if rd then 1 else 0) + m =
          ground (arith, b) in
        e)
    ∙ wrap _ m (ground (arith, a))

write-lt : (g : Settings) (i : Inputs) (s : Ctrl) → write g i s ≡ true → s.level < g.depth
unfolding write
write-lt g i s e = ground arith

read-lt : (i : Inputs) (s : Ctrl) → read i s ≡ true → 1 ≤ s.level
unfolding read
read-lt i s e = ground arith

step-Counts :
    (g : Settings) (i : Inputs) (s : Ctrl) (w r : ℕ)
    → Widths g
    → Counts g s w r
    → Counts g (step g i s) (if write g i s then suc w else w) (if read i s then suc r else r)
unfolding step
step-Counts g i s w r f c =
    let next =
      next_level s.level g.depth (2 ^ g.level_width) (write g i s) (read i s) c.within f.level
        (write-lt g i s) (read-lt i s) in
    record {
      level = ground (arith, c.level, next, write-lt g i s, read-lt i s);
      within = ground (arith, c.within, next, write-lt g i s, read-lt i s);
      produce = ground (arith, c.produce, inc-mod g.address_width g.depth w f.positive f.address);
      consume = ground (arith, c.consume, inc-mod g.address_width g.depth r f.positive f.address);
    }

-- Whatever the sink and the two engines do, no word is read before it is written, at most `depth`
-- words are held, which is what the level says, and the address of each write and of each read
-- counts up from `base` modulo the depth: the word number k is read from where it was written.
pub run-Counts :
    (g : Settings) (h : List Inputs) → Widths g → Counts g (run g h) (written g h) (taken g h)
unfolding run
run-Counts g [] f = record {
  level = refl;
  within = omega arith;
  produce = sym (mod-eq_of_lt f.positive);
  consume = sym (mod-eq_of_lt f.positive);
}
run-Counts g (i ∷ h) f = step-Counts g i (run g h) _ _ f (run-Counts g h f)

-- A word is read from the address that it was written to: when as many words were read after one
-- history as were written after another, the read and the write that come next have one address.
read_where_written :
    (g : Settings) (h h' : List Inputs)
    → Widths g
    → taken g h' ≡ written g h
    → write_address g (run g h) ≡ read_address g (run g h')
unfolding write_address read_address
read_where_written g h h' f e =
    ap (λ (n : ℕ). g.base + n)
      ((run-Counts g h f).produce
        ∙ ap (λ (n : ℕ). n % g.depth) (sym e)
        ∙ sym (run-Counts g h' f).consume)
