-- ===== src/Core/Crossbar/Routing.antt =====
-- A command goes to the bank that it addresses, and to no other.
use mathlib.Core.Path.{subst}
use litedram.Base.{
  ℕ, zero, suc, ◌+◌, ◌<◌, ◌≡◌, ◌≢◌, refl, ap, ◌∙◌, arith, Bool, true, false, not, ◌&&◌, ◌||◌, some,
  List, [], ◌∷◌, ◌==◌, ==_iff, get_elem?, some_inj,
}
use litedram.Core.Crossbar.{
  Settings, Master, Bank, bank_of, locked_from, bank_selected, bank_requested, bank_command,
  ready_from, master_ready,
}

-- No bank before number `k` counts.
ready_from_past :
    (g : Settings) (all : List Bank) (k nm : ℕ) (m : Master) (bs : List Bank)
    → bank_of g m < k
    → ready_from g all k nm m bs ≡ false
unfolding ready_from bank_selected
ready_from_past g all k nm m [] l = refl
ready_from_past g all k nm m (b ∷ bs) l = ground (arith, ready_from_past g all (suc k) nm m bs)

here_selected :
    (g : Settings) (all : List Bank) (k nm : ℕ) (m : Master)
    → bank_of g m ≡ k
    → bank_selected g all k nm m ≡ not (locked_from 0 (bank_of g m) nm all)
unfolding bank_selected
here_selected g all k nm m e =
    subst
      (λ j.
        (bank_of g m == j) && not (locked_from 0 j nm all)
        ≡ not (locked_from 0 (bank_of g m) nm all))
      e (rw ((==_iff (bank_of g m) (bank_of g m)).1 refl))

elsewhere_not_selected :
    (g : Settings) (all : List Bank) (k nm : ℕ) (m : Master)
    → k < bank_of g m
    → bank_selected g all k nm m ≡ false
unfolding bank_selected
elsewhere_not_selected g all k nm m l = ground (arith, l)

or_false : (b : Bool) → (b || false) ≡ b
or_false true = refl
or_false false = refl

and_false : (a b : Bool) → (a && (false && b)) ≡ false
and_false true b = refl
and_false false b = refl

ready_from-get :
    (g : Settings) (all : List Bank) (k nm n : ℕ) (m : Master) (bs : List Bank) (b : Bank)
    → bank_of g m ≡ k + n
    → get_elem? bs n ≡ some b
    → ready_from g all k nm m bs
      ≡ ((b.grant == nm) && (not (locked_from 0 (bank_of g m) nm all) && b.ready))
unfolding ready_from bank_selected
ready_from-get g all k nm n m [] b e at = cc
ready_from-get g all k nm zero m (c ∷ bs) b e at =
    let past = ready_from_past g all (suc k) nm m bs (omega arith) in
    let sel = here_selected g all k nm m (omega arith) in
    let open_here = not (locked_from 0 (bank_of g m) nm all) in
    rw (past, sel)
      (or_false _ ∙ ap (λ (x : Bank). (x.grant == nm) && (open_here && x.ready)) (some_inj at))
ready_from-get g all k nm (suc n) m (c ∷ bs) b e at =
    let sel = elsewhere_not_selected g all k nm m (omega arith) in
    rw (sel, and_false (c.grant == nm) c.ready)
      (ready_from-get g all (suc k) nm n m bs b (omega arith) at)

-- The command of a master is taken exactly when the bank that it addresses is granted to the
-- master, is ready, and no other bank is locked by the master.
master_ready_lem :
    (g : Settings) (banks : List Bank) (nm : ℕ) (m : Master) (b : Bank)
    → get_elem? banks (bank_of g m) ≡ some b
    → master_ready g banks nm m
      ≡ ((b.grant == nm) && (not (locked_from 0 (bank_of g m) nm banks) && b.ready))
unfolding master_ready
master_ready_lem g banks nm m b at =
    ready_from-get g banks 0 nm (bank_of g m) m banks b (omega arith) at

-- The lock of another bank is seen.
locked_from-get :
    (k nb nm n : ℕ) (bs : List Bank) (b : Bank)
    → k + n ≢ nb
    → get_elem? bs n ≡ some b
    → b.lock ≡ true
    → b.grant ≡ nm
    → locked_from k nb nm bs ≡ true
unfolding locked_from
locked_from-get k nb nm n [] b ne at l e = cc
locked_from-get k nb nm zero (c ∷ bs) b ne at l e = ground arith
locked_from-get k nb nm (suc n) (c ∷ bs) b ne at l e =
    let rest = locked_from-get (suc k) nb nm n bs b (λ q. ne (omega arith)) at l e in
    rw rest (or_true _)
  where
    or_true : (b : Bool) → (b || true) ≡ true
    or_true true = refl
    or_true false = refl

-- While a bank that is granted to a master holds its lock, no other bank is given a command of that
-- master.
pub lock_excludes :
    (g : Settings) (banks : List Bank) (nb j nm : ℕ) (m : Master) (b : Bank)
    → j ≢ nb
    → get_elem? banks j ≡ some b
    → b.lock ≡ true
    → b.grant ≡ nm
    → (bank_command g banks nb nm m).valid ≡ false
unfolding bank_command bank_requested bank_selected
lock_excludes g banks nb j nm m b ne at l e =
    let held = locked_from-get 0 nb nm j banks b (λ q. ne (omega arith)) at l e in
    rw held (ground arith)
