-- ===== src/Frontend/SyncFifo.antt =====
-- `SyncFIFO`, a component of another library, as the frontend uses it without buffering: a queue of
-- at most `depth` items, which accepts an item while it is not full and offers its oldest one.
use litedram.Base.{
  ◌+◌, ◌-◌, ℕ, ◌≡◌, Bool, true, false, ◌&&◌, Option, none, some, List, [], ◌∷◌, ◌++◌, ltb, length,
  length-append, arith, if◌then◌else◌, refl,
}

abbrev pub head? {ℓ} : {A : Type ℓ} → List A → Option A
head? [] = none
head? (x ∷ xs) = some x

abbrev pub is_some {ℓ} : {A : Type ℓ} → Option A → Bool
is_some none = false
is_some (some a) = true

-- One cycle of a queue, oldest item first: what is taken, then what is put.
abbrev pub pop {ℓ} : {A : Type ℓ} → Bool → List A → List A
pop ready [] = []
pop true (x ∷ xs) = xs
pop false (x ∷ xs) = x ∷ xs

abbrev pub push {ℓ} : {A : Type ℓ} → Bool → A → List A → List A
push true x xs = xs ++ (x ∷ [])
push false x xs = xs

-- `valid` and `item` drive the sink, `ready` the source.
pub record SyncFifo (A : Type 0) (depth : ℕ) : Type 1 where
  pub State : Type 0
  pub empty : State
  pub items : State → List A
  pub step : (valid : Bool) (item : A) (ready : Bool) → State → State
  pub items_empty : items empty ≡ []
  pub items_step :
      (valid : Bool) (item : A) (ready : Bool) (s : State)
      → items (step valid item ready s)
        ≡ push (valid && ltb (length (items s)) depth) item (pop ready (items s))

-- `sink.ready`, `source.valid` and the item offered.
module _ {A : Type 0} {depth : ℕ} (f : SyncFifo A depth) where
  abbrev pub sink_ready : f.State → Bool
  sink_ready s = ltb (length (f.items s)) depth

  abbrev pub offered : f.State → Option A
  offered s = head? (f.items s)

  abbrev pub source_valid : f.State → Bool
  source_valid s = is_some (head? (f.items s))

pub length-pop {ℓ} :
    {A : Type ℓ} (r : Bool) (xs : List A)
    → length (pop r xs) ≡ (if r then length xs - 1 else length xs)
length-pop true [] = refl
length-pop false [] = refl
length-pop true (x ∷ xs) = omega arith
length-pop false (x ∷ xs) = refl

pub length-push {ℓ} :
    {A : Type ℓ} (v : Bool) (x : A) (xs : List A)
    → length (push v x xs) ≡ length xs + (if v then 1 else 0)
length-push true x xs = length-append xs (x ∷ [])
length-push false x xs = omega arith

-- An item is offered exactly when there is one.
pub is_some-head? {ℓ} : {A : Type ℓ} (xs : List A) → is_some (head? xs) ≡ ltb 0 (length xs)
is_some-head? [] = refl
is_some-head? (x ∷ xs) = ground arith
