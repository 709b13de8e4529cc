-- ===== src/Common/BitSlip.antt =====
-- `BitSlip` of litedram/common.py and `ConstBitSlip` of litedram/phy/utils.py: shift registers that
-- give back the bits of their input, grouped anew. Bit 0 of a word is the first in time.
use native.Mathlib.Nat.{mod-eq_of_lt, mod-add-mod}
use litedram.Base.{
  ℕ, zero, suc, ◌+◌, ◌-◌, ◌*◌, ◌%◌, ◌^◌, ◌≤◌, ◌<◌, ◌≡◌, refl, sym, ap, ◌∙◌, arith, inl, inr,
  Bool-cases, Bool, true, false, List, [], ◌∷◌, ◌++◌, ltb, if◌then◌else◌, length, take, drop,
  replicate, after, length-append,
}

-- The width of a word, the cycles of the register, and the width of `value`.
pub record Settings : Type 0 where
  pub dw : ℕ
  pub cycles : ℕ
  pub value_width : ℕ

-- `slp` and `rst` of one cycle and the word, as bits.
pub record Inputs : Type 0 where
  pub slp : Bool
  pub rst : Bool
  pub word : List Bool

pub record BitSlip : Type 0 where
  pub value : ℕ
  pub r : List Bool

-- `r` has no reset: it starts with any bits.
abbrev pub reset : Settings → List Bool → BitSlip
reset g r = record { value = g.cycles * g.dw - 1; r = r }

-- The reset wins over a slip.
unfoldable pub next_value : Settings → Inputs → ℕ → ℕ
next_value g i value =
    if i.rst then g.cycles * g.dw - 1 else if i.slp then (value + 1) % 2 ^ g.value_width else value

-- `Cat(r[dw:], i)`.
unfoldable pub shift : (dw : ℕ) → (word r : List Bool) → List Bool
shift dw word r = drop dw r ++ word

unfoldable pub step : Settings → Inputs → BitSlip → BitSlip
unfolding next_value shift
step g i s = record { value = next_value g i s.value; r = shift g.dw i.word s.r }

unfoldable pub run : Settings → List Bool → List Inputs → BitSlip
unfolding step
run g r h = after (step g) (reset g r) h

-- `r[i+1:dw+i+1]` for the values that have a case, and 0 for the others.
unfoldable pub output : Settings → BitSlip → List Bool
output g s =
    if ltb s.value (g.cycles * g.dw)
    then take g.dw (drop (s.value + 1) s.r)
    else replicate g.dw false

-- `ConstBitSlip` after the same words, with its register: the slip is counted from the other end.
unfoldable pub const_run : Settings → List Bool → List (List Bool) → List Bool
unfolding shift
const_run g r words = after (shift g.dw) r words

unfoldable pub const_output : Settings → (slp : ℕ) → List Bool → List Bool
const_output g slp r = take g.dw (drop (g.cycles * g.dw - 1 - slp + 1) r)

-- Each word has the width of the signal.
abbrev pub Wide : Settings → List (List Bool) → Type 0
Wide g [] = Unit
Wide g (w ∷ ws) = (length w ≡ g.dw) × Wide g ws

-- The bits of the words, the last word first, in the order of time.
abbrev pub stream : List (List Bool) → List Bool
stream [] = []
stream (w ∷ ws) = stream ws ++ w

abbrev pub words : List Inputs → List (List Bool)
words [] = []
words (i ∷ h) = i.word ∷ words h

append_nil : (xs : List Bool) → xs ++ [] ≡ xs
append_nil [] = refl
append_nil (x ∷ xs) = ap (λ t. x ∷ t) (append_nil xs)

append_assoc : (xs ys zs : List Bool) → (xs ++ ys) ++ zs ≡ xs ++ (ys ++ zs)
append_assoc [] ys zs = refl
append_assoc (x ∷ xs) ys zs = ap (λ t. x ∷ t) (append_assoc xs ys zs)

drop_nil : (n : ℕ) → drop {A = Bool} n [] ≡ []
drop_nil zero = refl
drop_nil (suc n) = refl

drop-drop : (a b : ℕ) (xs : List Bool) → drop a (drop b xs) ≡ drop (b + a) xs
drop-drop a zero xs = ap (λ n. drop n xs) (omega arith)
drop-drop a (suc b) [] = drop_nil a ∙ sym (drop_nil (suc b + a))
drop-drop a (suc b) (x ∷ xs) =
    let e : suc b + a ≡ suc (b + a) = omega arith in
    drop-drop a b xs ∙ sym (ap (λ n. drop n (x ∷ xs)) e)

drop-append : (n : ℕ) (xs ys : List Bool) → n ≤ length xs → drop n xs ++ ys ≡ drop n (xs ++ ys)
drop-append zero xs ys l = refl
drop-append (suc n) [] ys l = elim l [ ]
drop-append (suc n) (x ∷ xs) ys l = drop-append n xs ys (omega arith)

length-stream :
    (g : Settings) (ws : List (List Bool)) → Wide g ws → length (stream ws) ≡ length ws * g.dw
length-stream g [] w = omega arith
length-stream g (x ∷ ws) w = grind (arith, length-append (stream ws) x, length-stream g ws w.1, w.0)

-- The register holds the last bits of what was there and what came in.
const_run-stream :
    (g : Settings) (r : List Bool) (ws : List (List Bool))
    → Wide g ws
    → g.dw ≤ length r
    → const_run g r ws ≡ drop (length ws * g.dw) (r ++ stream ws)
unfolding const_run shift
const_run-stream g r [] w l =
    let none_gone : 0 ≡ length {A = List Bool} [] * g.dw = omega arith in
    sym (append_nil r) ∙ ap (λ (k : ℕ). drop k (r ++ [])) none_gone
const_run-stream g r (x ∷ ws) w l =
    let n = length ws * g.dw in
    let long : length (r ++ stream ws) ≡ length r + n =
      length-append r (stream ws) ∙ ap (λ (k : ℕ). length r + k) (length-stream g ws w.1) in
    ap (λ t. drop g.dw t ++ x) (const_run-stream g r ws w.1 l)
    ∙ ap (λ t. t ++ x) (drop-drop g.dw n (r ++ stream ws))
    ∙ drop-append (n + g.dw) (r ++ stream ws) x (omega (arith, long))
    ∙ ap (λ (k : ℕ). drop k ((r ++ stream ws) ++ x)) (grind arith)
    ∙ ap (drop (length (x ∷ ws) * g.dw)) (append_assoc r (stream ws) x)

run_register :
    (g : Settings) (r : List Bool) (h : List Inputs) → (run g r h).r ≡ const_run g r (words h)
unfolding run const_run
run_register g r [] = refl
run_register g r (i ∷ h) = ap (shift g.dw i.word) (run_register g r h)

-- The slips since the last reset, and where they put the first bit of a word.
abbrev pub slips : List Inputs → ℕ
slips [] = 0
slips (i ∷ h) = let earlier = slips h in if i.rst then 0 else if i.slp then suc earlier else earlier

abbrev pub position : Settings → List Inputs → ℕ
position g h = (g.cycles * g.dw - 1 + slips h) % 2 ^ g.value_width

-- The value counts the slips, and wraps at its width.
run_value :
    (g : Settings) (r : List Bool) (h : List Inputs)
    → g.cycles * g.dw - 1 < 2 ^ g.value_width
    → (run g r h).value ≡ position g h
unfolding run step next_value
run_value g r [] fits =
    sym (ap (λ (k : ℕ). k % 2 ^ g.value_width) (omega arith) ∙ mod-eq_of_lt fits)
run_value g r (i ∷ h) fits =
    let start = g.cycles * g.dw - 1 in
    let earlier = run_value g r h fits in
    elim (Bool-cases i.rst) [
      | inl e ↦ rw e (sym (ap (λ (k : ℕ). k % 2 ^ g.value_width) (omega arith) ∙ mod-eq_of_lt fits))
      | inr e ↦ elim (Bool-cases i.slp) [
        | inl q ↦
            rw (e, q)
              (ap (λ (k : ℕ). (k + 1) % 2 ^ g.value_width) earlier
                ∙ mod-add-mod (start + slips h) (2 ^ g.value_width) 1
                ∙ ap (λ (k : ℕ). k % 2 ^ g.value_width) (omega arith))
        | inr q ↦ rw (e, q) earlier
      ]
    ]

-- For words of the signal's width, a register of at least one word and a value wide enough for its
-- first value: when the first value, the number of all cycles' bits less 1, plus the slips since the
-- last reset, wrapped at the width of the value, has a case, the output is the word of consecutive
-- bits of the stream, what was in the register and then all words, that begins as many bits after the
-- register's oldest as that number plus 1.
pub output-stream :
    (g : Settings) (r : List Bool) (h : List Inputs)
    → Wide g (words h)
    → g.dw ≤ length r
    → g.cycles * g.dw - 1 < 2 ^ g.value_width
    → position g h < g.cycles * g.dw
    → output g (run g r h)
      ≡ take g.dw (drop (length (words h) * g.dw + (position g h + 1)) (r ++ stream (words h)))
unfolding output
output-stream g r h w l fits v =
    let s = run g r h in
    let value = run_value g r h fits in
    let has_case : ltb s.value (g.cycles * g.dw) ≡ true = ground (arith, v, value) in
    rw has_case (
      ap (λ t. take g.dw (drop (s.value + 1) t))
        (run_register g r h ∙ const_run-stream g r (words h) w l)
      ∙ ap (take g.dw) (drop-drop (s.value + 1) (length (words h) * g.dw) (r ++ stream (words h)))
      ∙ ap (λ (k : ℕ). take g.dw (drop (length (words h) * g.dw + (k + 1)) (r ++ stream (words h))))
          value)

-- A `BitSlip` whose value has a case gives what a `ConstBitSlip` of the same width and cycles gives,
-- whose slip counts from the greatest value down to it.
output-const_output :
    (g : Settings) (r : List Bool) (h : List Inputs)
    → (run g r h).value < g.cycles * g.dw
    → output g (run g r h)
      ≡ const_output g (g.cycles * g.dw - 1 - (run g r h).value) (const_run g r (words h))
unfolding output const_output
output-const_output g r h v =
    let s = run g r h in
    let has_case : ltb s.value (g.cycles * g.dw) ≡ true = ground (arith, v) in
    let e : s.value + 1 ≡ g.cycles * g.dw - 1 - (g.cycles * g.dw - 1 - s.value) + 1 =
      omega (arith, v) in
    rw has_case (
      ap (λ t. take g.dw (drop (s.value + 1) t)) (run_register g r h)
      ∙ ap (λ (k : ℕ). take g.dw (drop k (const_run g r (words h)))) e)
