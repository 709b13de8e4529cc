-- ===== src/Core/Refresher/Timeline.antt =====
-- `timeline`, a component of another library, as the refresher uses it: after a trigger it goes
-- through the cycles 0 to `last` once, and ignores triggers meanwhile.
use litedram.Base.{ℕ, ◌+◌, ◌<◌, ◌≡◌, Bool, true, false, Option, none, some, if◌then◌else◌}

-- `position` is the offset of the coming cycle, `none` when nothing runs.
pub record Timeline (last : ℕ) : Type 1 where
  pub State : Type 0
  pub idle : State
  pub step : Bool → State → State
  pub position : State → Option ℕ
  pub idle_position : position idle ≡ none
  pub waits : (s : State) → position s ≡ none → position (step false s) ≡ none
  pub starts : (s : State) → position s ≡ none → 0 < last → position (step true s) ≡ some 1
  pub runs :
      (s : State) (trigger : Bool) (k : ℕ)
      → position s ≡ some k
      → k < last
      → position (step trigger s) ≡ some (k + 1)
  pub ends :
      (s : State) (trigger : Bool) → position s ≡ some last → position (step trigger s) ≡ none

-- The offset whose actions are taken in a cycle.
abbrev pub offset : Option ℕ → Bool → Option ℕ
offset none trigger = if trigger then some 0 else none
offset (some k) trigger = some k
