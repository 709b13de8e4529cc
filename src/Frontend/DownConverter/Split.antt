-- ===== src/Frontend/DownConverter/Split.antt =====
-- What the narrow port is asked for.
use native.Mathlib.Nat.{mod-eq_of_lt}
use litedram.Base.{
  ℕ, zero, suc, ◌+◌, ◌-◌, ◌%◌, ◌^◌, ◌≤◌, ◌<◌, ◌≡◌, refl, sym, ap, ◌∙◌, arith, Bool, true, false,
  ◌&&◌, List, [], ◌∷◌, ◌++◌, ◌==◌, if◌then◌else◌, Bool-cases, inl, inr, length, after,
}
use litedram.Frontend.DownConverter.{
  Settings, State, Command, Inputs, Converter, from_ready, to_valid, to_cmd, step, run,
}

-- The commands taken from the wide port and given to the narrow one, the most recent first.
abbrev pub accepted : Settings → List Inputs → List Command
accepted g [] = []
accepted g (i ∷ h) =
    if i.from_valid && from_ready (run g h) then i.from_cmd ∷ accepted g h else accepted g h

abbrev pub issued : Settings → List Inputs → List Command
issued g [] = []
issued g (i ∷ h) =
    let s = run g h in
    if to_valid s && i.to_ready then to_cmd g s.cmd s.cmd_count ∷ issued g h else issued g h

-- The first `n` narrow commands of a wide one, and all those of a list of wide ones.
abbrev pub part : Settings → Command → ℕ → List Command
part g c zero = []
part g c (suc n) = to_cmd g c n ∷ part g c n

abbrev pub split : Settings → List Command → List Command
split g [] = []
split g (c ∷ cs) = part g c g.ratio ++ split g cs

-- What has been issued of what was accepted: all of it, or all but the rest of the last command.
abbrev pub due : Settings → Converter → List Command → List Command
due g s cs = elim s.fsm [
  | State.idle ↦ split g cs
  | State.convert ↦ elim cs [ [] ↦ [] | c ∷ rest ↦ part g c s.cmd_count ++ split g rest ]
]

record Due (g : Settings) (s : Converter) (taken given : List Command) : Type 0 where
  given_due : given ≡ due g s taken
  current :
      s.fsm ≡ State.convert
      → (s.cmd_count < g.ratio) × ((rest : List Command) × (taken ≡ s.cmd ∷ rest))

-- A narrow command is given.
given-Due :
    (g : Settings) (count : ℕ) (c : Command) (taken given rest : List Command)
    → g.ratio ≤ 2 ^ g.count_width
    → count < g.ratio
    → taken ≡ c ∷ rest
    → given ≡ due g (record { fsm = State.convert; cmd_count = count; cmd = c }) taken
    → Due g
        (record {
          fsm = if count == g.ratio - 1 then State.idle else State.convert;
          cmd_count = (count + 1) % 2 ^ g.count_width;
          cmd = c;
        })
        taken
        (to_cmd g c count ∷ given)
given-Due g count c taken given rest fits l q e =
    let s : Converter = record { fsm = State.convert; cmd_count = count; cmd = c } in
    let head : to_cmd g c count ∷ given ≡ part g c (suc count) ++ split g rest =
      ap (λ xs. to_cmd g c count ∷ xs) (e ∙ ap (due g s) q) in
    elim (Bool-cases (count == g.ratio - 1)) [
      | inl t ↦
          let whole : suc count ≡ g.ratio = ground (arith, t) in
          rw t (record {
            given_due =
                head ∙ ap (λ (n : ℕ). part g c n ++ split g rest) whole ∙ ap (split g) (sym q);
            current = λ x. cc;
          })
      | inr f ↦
          let next : (count + 1) % 2 ^ g.count_width ≡ suc count =
            mod-eq_of_lt (ground (arith, f)) ∙ omega arith in
          let s' : Converter = record { fsm = State.convert; cmd_count = suc count; cmd = c } in
          let after : Due g s' taken (to_cmd g c count ∷ given) = record {
            given_due = head ∙ ap (due g s') (sym q);
            current = λ x. (ground (arith, f), (rest, q));
          } in
          rw (f, next) after
    ]

-- One cycle, by the state.
step-Due :
    (g : Settings) (v r : Bool) (cmd : Command) (st : State) (count : ℕ) (c : Command)
    (taken given : List Command)
    → let i : Inputs = record { from_valid = v; from_cmd = cmd; to_ready = r } in
      let s : Converter = record { fsm = st; cmd_count = count; cmd = c } in
      1 ≤ g.ratio
      → g.ratio ≤ 2 ^ g.count_width
      → Due g s taken given
      → Due g
          (step g i s)
          (if v && from_ready s then cmd ∷ taken else taken)
          (if to_valid s && r then to_cmd g c count ∷ given else given)
unfolding step
step-Due g false r cmd State.idle count c taken given pos fits d = d
step-Due g true r cmd State.idle count c taken given pos fits d = record {
  given_due = d.given_due;
  current = λ e. (pos, (taken, refl));
}
step-Due g false false cmd State.convert count c taken given pos fits d = d
step-Due g true false cmd State.convert count c taken given pos fits d = d
step-Due g false true cmd State.convert count c taken given pos fits d =
    let (l, (rest, q)) = d.current refl in given-Due g count c taken given rest fits l q d.given_due
step-Due g true true cmd State.convert count c taken given pos fits d =
    let (l, (rest, q)) = d.current refl in given-Due g count c taken given rest fits l q d.given_due

run-Due :
    (g : Settings) (h : List Inputs)
    → 1 ≤ g.ratio
    → g.ratio ≤ 2 ^ g.count_width
    → Due g (run g h) (accepted g h) (issued g h)
unfolding run
run-Due g [] pos fits = record { given_due = refl; current = λ e. cc }
run-Due g (i ∷ h) pos fits =
    step-Due g i.from_valid i.to_ready i.from_cmd (run g h).fsm (run g h).cmd_count (run g h).cmd
      (accepted g h) (issued g h) pos fits (run-Due g h pos fits)

all_due :
    (g : Settings) (s : Converter) (cs : List Command)
    → from_ready s ≡ true
    → due g s cs ≡ split g cs
all_due g s cs r =
    elim s.fsm
        as (λ st.
          elim st [ State.idle ↦ true | State.convert ↦ false ] ≡ true
          → elim st [
            | State.idle ↦ split g cs
            | State.convert ↦ elim cs [ [] ↦ [] | c ∷ rest ↦ part g c s.cmd_count ++ split g rest ]
          ]
            ≡ split g cs) [ State.idle ↦ λ x. refl | State.convert ↦ λ x. cc ]
      r

-- With a ratio of at least 1 that the count can hold, whenever the converter is ready for the next
-- command, the narrow port has been given, in order, for each command of the wide port the `ratio`
-- commands of the same kind at the consecutive addresses from `ratio` times its address on.
pub issued_split :
    (g : Settings) (h : List Inputs)
    → 1 ≤ g.ratio
    → g.ratio ≤ 2 ^ g.count_width
    → from_ready (run g h) ≡ true
    → issued g h ≡ split g (accepted g h)
issued_split g h pos fits ready =
    (run-Due g h pos fits).given_due ∙ all_due g (run g h) (accepted g h) ready

-- The narrow port is ready in each cycle.
abbrev pub AllReady : List Inputs → Type 0
AllReady [] = Unit
AllReady (i ∷ h) = (i.to_ready ≡ true) × AllReady h

-- A cycle of a conversion in which the narrow port is ready.
convert_step :
    (g : Settings) (i : Inputs) (s : Converter) (n : ℕ)
    → s.fsm ≡ State.convert
    → s.cmd_count ≡ n
    → i.to_ready ≡ true
    → step g i s ≡ record {
      fsm = if n == g.ratio - 1 then State.idle else State.convert;
      cmd_count = (n + 1) % 2 ^ g.count_width;
      cmd = s.cmd;
    }
unfolding step
convert_step g i s n f e r = rw (f, r, e)

-- From its first cycle on, a conversion lasts as long as it has not given all its commands.
converting :
    (g : Settings) (s : Converter) (h : List Inputs)
    → g.ratio ≤ 2 ^ g.count_width
    → s.fsm ≡ State.convert
    → s.cmd_count ≡ 0
    → AllReady h
    → length h < g.ratio
    → ((after (step g) s h).fsm ≡ State.convert) × ((after (step g) s h).cmd_count ≡ length h)
converting g s [] fits e z a l = (e, z)
converting g s (i ∷ h) fits e z a l =
    let (f, n) = converting g s h fits e z a.1 (omega arith) in
    let next = convert_step g i (after (step g) s h) (length h) f n a.0 in
    let small : (length h + 1) % 2 ^ g.count_width ≡ length h + 1 = mod-eq_of_lt (omega arith) in
    (
      ap (λ (c : Converter). c.fsm) next ∙ ground (arith, l),
      ap (λ (c : Converter). c.cmd_count) next ∙ omega (arith, small),
    )

ends :
    (b : Bool)
    → elim (if b then State.idle else State.convert) [ State.idle ↦ true | State.convert ↦ false ]
      ≡ b
ends true = refl
ends false = refl

-- A conversion ends: when the narrow port is ready in each cycle, `ratio` cycles after the command
-- was accepted the converter is ready for the next one, and in no earlier cycle.
pub ready_after_ratio :
    (g : Settings) (s : Converter) (i : Inputs) (h : List Inputs)
    → g.ratio ≤ 2 ^ g.count_width
    → s.fsm ≡ State.convert
    → s.cmd_count ≡ 0
    → AllReady (i ∷ h)
    → length h < g.ratio
    → from_ready (after (step g) s (i ∷ h)) ≡ (suc (length h) == g.ratio)
ready_after_ratio g s i h fits e z a l =
    let (f, n) = converting g s h fits e z a.1 l in
    ap from_ready (convert_step g i (after (step g) s h) (length h) f n a.0)
    ∙ ends (length h == g.ratio - 1)
    ∙ ground (arith, l)
