-- ===== src/Core/Multiplexer/Spacing.antt =====
-- How far apart the granted commands are.
use litedram.Base.{
  ℕ, ◌^◌, ◌≤◌, ◌≡◌, refl, sym, ap, ◌∙◌, arith, Bool, true, Option, some, List, [], ◌∷◌, take,
  popcount, ==_iff, &&-parts,
}
use litedram.Common.Txxd
use litedram.Common.Txxd.Delay.{cycles_left, ready-cycles_left}
use litedram.Common.Faw
use litedram.Common.Faw.Window.{Guarded, at_most_four_activates}
use litedram.Core.Multiplexer.{
  Settings, Inputs, Multiplexer, reset, step, run, accept_activate, accept_column, cmd_ready,
  req_ready, ras_allowed, cas_allowed, cmd_cmd,
}

-- In which cycles of a history an activate, or a column access, was accepted.
abbrev pub activates : Settings → List Inputs → List Bool
activates g [] = []
activates g (i ∷ h) = accept_activate g i (run g h) ∷ activates g h

abbrev pub columns : Settings → List Inputs → List Bool
columns g [] = []
columns g (i ∷ h) = accept_column g i (run g h) ∷ columns g h

accepted-ras :
    (g : Settings) (i : Inputs) (s : Multiplexer)
    → accept_activate g i s ≡ true
    → ras_allowed s ≡ true
unfolding accept_activate cmd_ready req_ready cmd_cmd
accepted-ras g i s e = ground arith

accepted-cas :
    (g : Settings) (i : Inputs) (s : Multiplexer)
    → accept_column g i s ≡ true
    → cas_allowed s ≡ true
unfolding accept_column req_ready
accepted-cas g i s e = ground arith

trrdcon-run :
    (g : Settings) (h : List Inputs)
    → (run g h).trrdcon ≡ Txxd.run g.trrd g.trrd_width (activates g h)
unfolding run step reset Txxd.run
trrdcon-run g [] = refl
trrdcon-run g (i ∷ h) =
    ap (Txxd.step g.trrd g.trrd_width (accept_activate g i (run g h))) (trrdcon-run g h)

tfawcon-run :
    (g : Settings) (h : List Inputs)
    → (run g h).tfawcon ≡ Faw.run g.tfaw g.tfaw_width (activates g h)
unfolding run step reset Faw.run
tfawcon-run g [] = refl
tfawcon-run g (i ∷ h) =
    ap (Faw.step g.tfaw g.tfaw_width (accept_activate g i (run g h))) (tfawcon-run g h)

tccdcon-run :
    (g : Settings) (h : List Inputs)
    → (run g h).tccdcon ≡ Txxd.run g.tccd g.tccd_width (columns g h)
unfolding run step reset Txxd.run
tccdcon-run g [] = refl
tccdcon-run g (i ∷ h) =
    ap (Txxd.step g.tccd g.tccd_width (accept_column g i (run g h))) (tccdcon-run g h)

Guarded-activates :
    (g : Settings) (tfaw : ℕ) (h : List Inputs)
    → g.tfaw ≡ some tfaw
    → Guarded tfaw g.tfaw_width (activates g h)
Guarded-activates g tfaw [] e = tt
Guarded-activates g tfaw (i ∷ h) e = (
  (λ a.
      ap (λ (t : Option ℕ). (Faw.run t g.tfaw_width (activates g h)).ready) (sym e)
      ∙ ap (λ (f : Faw.Faw). f.ready) (sym (tfawcon-run g h))
      ∙ (&&-parts _ _ (accepted-ras g i (run g h) a)).1),
  Guarded-activates g tfaw h e,
)

-- When there is a tFAW and the width of its controller's count holds it, the multiplexer accepts
-- at most four activates in any tFAW cycles in a row, whatever the bank machines request and the
-- arbiters grant.
pub activates_in_window :
    (g : Settings) (tfaw : ℕ) (h : List Inputs)
    → g.tfaw ≡ some tfaw
    → tfaw ≤ 2 ^ g.tfaw_width
    → popcount (take tfaw (activates g h)) ≤ 4
activates_in_window g tfaw h e fits =
    at_most_four_activates tfaw g.tfaw_width (activates g h) fits (Guarded-activates g tfaw h e)

-- An accepted command finds no cycle left to wait.
none_left :
    (timing : Option ℕ) (t w : ℕ) (c : Txxd.Txxd) (h : List Bool)
    → timing ≡ some t
    → 1 ≤ t
    → t ≤ 2 ^ w
    → 1 ≤ w
    → c ≡ Txxd.run timing w h
    → c.ready ≡ true
    → cycles_left t w h ≡ 0
none_left timing t w c h e pos fits wide at_run r = (==_iff _ 0).0 (
    sym (ready-cycles_left t w h pos fits wide)
    ∙ ap (λ (o : Option ℕ). (Txxd.run o w h).ready) (sym e)
    ∙ ap (λ (x : Txxd.Txxd). x.ready) (sym at_run)
    ∙ r)

-- When tRRD is at least 1 and its controller's counter holds it, an activate that the
-- multiplexer accepts finds no cycle left to wait since the last one that it accepted.
pub activate_after_trrd :
    (g : Settings) (trrd : ℕ) (i : Inputs) (h : List Inputs)
    → g.trrd ≡ some trrd
    → 1 ≤ trrd
    → trrd ≤ 2 ^ g.trrd_width
    → 1 ≤ g.trrd_width
    → accept_activate g i (run g h) ≡ true
    → cycles_left trrd g.trrd_width (activates g h) ≡ 0
activate_after_trrd g trrd i h e pos fits wide a =
    none_left g.trrd trrd g.trrd_width _ (activates g h) e pos fits wide (trrdcon-run g h)
      (&&-parts _ _ (accepted-ras g i (run g h) a)).0

-- When tCCD is at least 1 and its controller's counter holds it, a read or a write that the
-- multiplexer accepts finds no cycle left to wait since the last one that it accepted.
pub column_after_tccd :
    (g : Settings) (tccd : ℕ) (i : Inputs) (h : List Inputs)
    → g.tccd ≡ some tccd
    → 1 ≤ tccd
    → tccd ≤ 2 ^ g.tccd_width
    → 1 ≤ g.tccd_width
    → accept_column g i (run g h) ≡ true
    → cycles_left tccd g.tccd_width (columns g h) ≡ 0
column_after_tccd g tccd i h e pos fits wide a =
    none_left g.tccd tccd g.tccd_width _ (columns g h) e pos fits wide (tccdcon-run g h)
      (accepted-cas g i (run g h) a)
