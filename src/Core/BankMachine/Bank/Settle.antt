-- ===== src/Core/BankMachine/Bank/Settle.antt =====
-- How a bank changes in a cycle without an event, and the times that will have gone by.
use litedram.Base.{ℕ, ◌+◌, ◌≤◌, ◌≡◌, refl, ◌⊎◌, inl, inr, arith, true, false, Option, none, some}
use litedram.Common.Txxd.Elapsed.{AtLeast, age_step}
use litedram.Core.BankMachine.{Settings, precharge_time}
use litedram.Core.BankMachine.Bank.{Row, Bank, elapsed, settle}

-- `t` will have gone by in `k` cycles.
abbrev pub AtLeastIn : ℕ → ℕ → Option ℕ → Type 0
AtLeastIn k t none = Unit
AtLeastIn k t (some a) = t ≤ a + k

pub AtLeastIn-zero : (t : ℕ) (age : Option ℕ) → AtLeastIn 0 t age → AtLeast (some t) age
AtLeastIn-zero t none h = tt
AtLeastIn-zero t (some a) h = omega arith

pub AtLeast-step :
    (t : ℕ) (age : Option ℕ) → AtLeast (some t) age → AtLeast (some t) (age_step false age)
AtLeast-step t none h = tt
AtLeast-step t (some a) h = omega arith

pub AtLeastIn-le : (k k' t : ℕ) (age : Option ℕ) → k ≤ k' → AtLeastIn k t age → AtLeastIn k' t age
AtLeastIn-le k k' t none le h = tt
AtLeastIn-le k k' t (some a) le h = omega arith

pub AtLeastIn-step :
    (k t : ℕ) (age : Option ℕ) → AtLeastIn (k + 1) t age → AtLeastIn k t (age_step false age)
AtLeastIn-step k t none h = tt
AtLeastIn-step k t (some a) h = omega arith

-- Without an event an open or a closed bank only ages.
pub settle_of_closed :
    (g : Settings) (b : Bank)
    → b.row ≡ Row.closed
    → ((settle g b).row ≡ Row.closed) × ((settle g b).since_pre ≡ age_step false b.since_pre)
unfolding settle
settle_of_closed g b e = rw (e, settle) (e, refl)

settle_of_opened :
    (g : Settings) (b : Bank) (r : ℕ)
    → b.row ≡ Row.opened r
    → ((settle g b).row ≡ Row.opened r) × ((settle g b).since_act ≡ age_step false b.since_act)
unfolding settle
settle_of_opened g b r e = rw (e, settle) (e, refl)

elapsed_of_AtLeast : (t age : Option ℕ) → AtLeast t age → elapsed t age ≡ true
elapsed_of_AtLeast none age h = refl
elapsed_of_AtLeast (some t) none h = refl
elapsed_of_AtLeast (some t) (some a) h = ground arith

-- A bank that is about to close, or has just closed, stays so; it closes when its times are up.
pub settle_of_closing :
    (g : Settings) (b : Bank)
    → (b.row ≡ Row.closing) ⊎ ((b.row ≡ Row.closed) × AtLeast (some 1) b.since_pre)
    → ((settle g b).row ≡ Row.closing)
      ⊎ (((settle g b).row ≡ Row.closed) × AtLeast (some 1) (settle g b).since_pre)
unfolding settle
settle_of_closing g b (inl e) = rw (e, settle) (ground arith)
settle_of_closing g b (inr (e, h)) = rw (e, settle) (inr (e, AtLeast-step 1 b.since_pre h))

pub settle_of_elapsed :
    (g : Settings) (b : Bank)
    → AtLeast (some (precharge_time g)) b.since_write
    → AtLeast g.tras b.since_act
    → (b.row ≡ Row.closing) ⊎ ((b.row ≡ Row.closed) × AtLeast (some 1) b.since_pre)
    → ((settle g b).row ≡ Row.closed) × AtLeast (some 1) (settle g b).since_pre
unfolding settle
settle_of_elapsed g b hw hr (inl e) =
    rw (e, elapsed_of_AtLeast _ _ hw, elapsed_of_AtLeast _ _ hr, settle) (refl, omega arith)
settle_of_elapsed g b hw hr (inr (e, h)) = rw (e, settle) (e, AtLeast-step 1 b.since_pre h)

pub still_opened :
    (g : Settings) (b : Bank) (p : (r : ℕ) × (b.row ≡ Row.opened r))
    → (r : ℕ) × ((settle g b).row ≡ Row.opened r)
still_opened g b (r, e) = (r, (settle_of_opened g b r e).0)

pub settled_opened :
    (g : Settings) (b : Bank) (row t : ℕ)
    → (b.row ≡ Row.opened row) × AtLeast (some t) b.since_act
    → ((settle g b).row ≡ Row.opened row) × AtLeast (some t) (settle g b).since_act
settled_opened g b row t (e, h) =
    let s = settle_of_opened g b row e in (s.0, rw s.1 (AtLeast-step t b.since_act h))

pub settled_closed :
    (g : Settings) (b : Bank) (t : ℕ)
    → (b.row ≡ Row.closed) × AtLeast (some t) b.since_pre
    → ((settle g b).row ≡ Row.closed) × AtLeast (some t) (settle g b).since_pre
settled_closed g b t (e, h) =
    let s = settle_of_closed g b e in (s.0, rw s.1 (AtLeast-step t b.since_pre h))

pub settled_waiting :
    (g : Settings) (b : Bank) (row n t : ℕ)
    → (b.row ≡ Row.opened row) × AtLeastIn (n + 1) t b.since_act
    → ((settle g b).row ≡ Row.opened row) × AtLeastIn n t (settle g b).since_act
settled_waiting g b row n t (e, h) =
    let s = settle_of_opened g b row e in (s.0, rw s.1 (AtLeastIn-step n t b.since_act h))
