-- ===== src/Phy/Lpddr4/Data/Stored.antt =====
-- What a write burst leaves in the memory of the simulated LPDDR4 chip, and what a read burst returns.
use mathlib.Core.Path.{ap₂, subst}
use litedram.Base.{
  ℕ, zero, suc, ◌+◌, ◌%◌, ◌≤◌, ◌<◌, ◌≡◌, ◌≢◌, refl, sym, ap, ◌∙◌, arith, Bool, true, false, not,
  ◌&&◌, Option, none, some, List, [], ◌∷◌, map, ◌==◌, if◌then◌else◌, length, nth, replicate,
}
use litedram.Phy.Lpddr4.Sim.{Burst}
use litedram.Phy.Lpddr4.Data.{
  Memory, DataBurst, Data, Inputs, write, read, next_burst, addr, write_beat, next_mems, dq_out,
  step,
}

-- What the pads carry in one beat.
pub record Beat : Type 0 where
  pub dq : ℕ → ℕ
  pub dmi : ℕ → Bool

-- A cycle without a new burst, and the cycle in which one is triggered.
abbrev pub beat : Burst → Beat → Inputs
beat x b = record {
  write_tap = false;
  read_tap = false;
  valid = false;
  source = x;
  dq = b.dq;
  dmi = b.dmi;
}

abbrev pub trigger : Burst → Inputs
trigger x = record {
  write_tap = x.we;
  read_tap = not x.we;
  valid = true;
  source = x;
  dq = λ lane. 0;
  dmi = λ lane. false;
}

unfoldable pub cycles : List Inputs → Data → Data
unfolding step
cycles [] s = s
cycles (i ∷ is) s = cycles is (step i s)

-- The chip in a burst, or in none.
abbrev pub idle : DataBurst
idle = record { busy = false; burst_counter = 0 }

abbrev at_beat : ℕ → DataBurst
at_beat c = record { busy = true; burst_counter = c }

abbrev pub during : (wr rd : DataBurst) (masked : Bool) → Burst → Memory → Data
during wr rd masked x m = record {
  dq_wr = wr;
  masked = masked;
  dq_rd = rd;
  bank = x.bank;
  row = x.row;
  col = x.col;
  mems = m;
}

-- The memory after the beats from a count on.
stored : (masked : Bool) → Burst → ℕ → List Beat → Memory → Memory
unfolding write_beat addr
stored masked x c [] m = m
stored masked x c (b ∷ bs) m =
    stored masked x (suc c) bs (write_beat masked x.bank (addr x.row x.col c) b.dq b.dmi m)

cycles-beats :
    (masked : Bool) (x : Burst) (bs : List Beat) (b : Beat) (c : ℕ) (m : Memory)
    → c + length (b ∷ bs) ≡ 16
    → cycles (map (beat x) (b ∷ bs)) (during (at_beat c) idle masked x m)
      ≡ during idle idle masked x (stored masked x c (b ∷ bs) m)
unfolding cycles step write read next_burst next_mems stored
cycles-beats masked x [] b c m e =
    let last : c ≡ 15 = omega (arith, e) in
    subst
      (λ k.
        cycles (map (beat x) (b ∷ [])) (during (at_beat k) idle masked x m)
        ≡ during idle idle masked x (stored masked x k (b ∷ []) m))
      (sym last) refl
cycles-beats masked x (b1 ∷ bs) b c m e =
    let more : (c == 15) ≡ false = ground (arith, e) in
    let next : (c + 1) % 16 ≡ suc c = omega (arith, e) in
    ap₂
      (λ busy k. cycles (map (beat x) (b1 ∷ bs)) (
        during (record { busy = not busy; burst_counter = k }) idle masked x
          (write_beat masked x.bank (addr x.row x.col c) b.dq b.dmi m)))
      more next
    ∙ cycles-beats masked x bs b1 (suc c)
        (write_beat masked x.bank (addr x.row x.col c) b.dq b.dmi m) (omega (arith, e))

-- The beats' addresses are different: their columns are within one row of 1024.
addr-inj : (row col j k : ℕ) → j < 16 → k < 16 → addr row col j ≡ addr row col k → j ≡ k
unfolding addr
addr-inj row col j k h l e = omega arith

written : (masked : Bool) → Beat → (lane old : ℕ) → ℕ
written masked b lane old = if masked && b.dmi lane then old else b.dq lane

write_beat-same :
    (masked : Bool) (bank a : ℕ) (b : Beat) (m : Memory) (lane : ℕ)
    → write_beat masked bank a b.dq b.dmi m bank a lane ≡ written masked b lane (m bank a lane)
unfolding write_beat written
write_beat-same masked bank a b m lane = ground arith

write_beat-other :
    (masked : Bool) (bank a c : ℕ) (b : Beat) (m : Memory) (lane : ℕ)
    → c ≢ a
    → write_beat masked bank a b.dq b.dmi m bank c lane ≡ m bank c lane
unfolding write_beat
write_beat-other masked bank a c b m lane ne = ground arith

-- The beats from a count on leave the words of earlier counts.
stored-earlier :
    (masked : Bool) (x : Burst) (bs : List Beat) (c j : ℕ) (m : Memory) (lane : ℕ)
    → c + length bs ≤ 16
    → j < c
    → stored masked x c bs m x.bank (addr x.row x.col j) lane ≡ m x.bank (addr x.row x.col j) lane
unfolding stored
stored-earlier masked x [] c j m lane l h = refl
stored-earlier masked x (b ∷ bs) c j m lane l h =
    let ne : addr x.row x.col j ≢ addr x.row x.col c = λ e.
      absurd
        (let q : j ≡ c = addr-inj x.row x.col j c (omega arith) (omega arith) e in omega arith) in
    stored-earlier masked x bs (suc c) j _ lane (omega arith) (omega arith)
    ∙ write_beat-other masked x.bank (addr x.row x.col c) (addr x.row x.col j) b m lane ne

stored-nth :
    (masked : Bool) (x : Burst) (d : Beat) (bs : List Beat) (c k : ℕ) (m : Memory) (lane : ℕ)
    → c + length bs ≤ 16
    → k < length bs
    → stored masked x c bs m x.bank (addr x.row x.col (c + k)) lane
      ≡ written masked (nth d bs k) lane (m x.bank (addr x.row x.col (c + k)) lane)
unfolding stored
stored-nth masked x d [] c k m lane l h = absurd (omega arith)
stored-nth masked x d (b ∷ bs) c zero m lane l h =
    let e : c + 0 ≡ c = omega arith in
    ap (λ j. stored masked x c (b ∷ bs) m x.bank (addr x.row x.col j) lane) e
    ∙ stored-earlier masked x bs (suc c) c _ lane (omega arith) (omega arith)
    ∙ write_beat-same masked x.bank (addr x.row x.col c) b m lane
    ∙ ap (λ j. written masked b lane (m x.bank (addr x.row x.col j) lane)) (sym e)
stored-nth masked x d (b ∷ bs) c (suc k) m lane l h =
    let e : c + suc k ≡ suc c + k = omega arith in
    let ne : addr x.row x.col (c + suc k) ≢ addr x.row x.col c = λ q. absurd (
      let r : c + suc k ≡ c = addr-inj x.row x.col (c + suc k) c (omega arith) (omega arith) q in
      omega arith) in
    let m1 = write_beat masked x.bank (addr x.row x.col c) b.dq b.dmi m in
    ap (λ j. stored masked x (suc c) bs m1 x.bank (addr x.row x.col j) lane) e
    ∙ stored-nth masked x d bs (suc c) k m1 lane (omega arith) (omega arith)
    ∙ ap (λ j. written masked (nth d bs k) lane (m1 x.bank (addr x.row x.col j) lane)) (sym e)
    ∙ ap (written masked (nth d bs k) lane) (
        write_beat-other masked x.bank (addr x.row x.col c) (addr x.row x.col (c + suc k)) b m lane
          ne)

-- A read burst, up to a beat.
reading :
    (masked : Bool) (x : Burst) (b : Beat) (n c : ℕ) (m : Memory)
    → c + n < 16
    → cycles (replicate n (beat x b)) (during idle (at_beat c) masked x m)
      ≡ during idle (at_beat (c + n)) masked x m
unfolding cycles step write read next_burst next_mems
reading masked x b zero c m h =
    ap (λ k. during idle (at_beat k) masked x m) (let e : c ≡ c + 0 = omega arith in e)
reading masked x b (suc n) c m h =
    let more : (c == 15) ≡ false = ground arith in
    let next : (c + 1) % 16 ≡ suc c = omega arith in
    ap₂
      (λ busy k.
        cycles (replicate n (beat x b))
          (during idle (record { busy = not busy; burst_counter = k }) masked x m))
      more next
    ∙ reading masked x b n (suc c) m (omega arith)
    ∙ ap (λ k. during idle (at_beat k) masked x m)
        (let e : suc c + n ≡ c + suc n = omega arith in e)

pausing :
    (masked : Bool) (x y : Burst) (b : Beat) (n : ℕ) (m : Memory)
    → cycles (replicate n (beat y b)) (during idle idle masked x m) ≡ during idle idle masked x m
unfolding cycles step write read next_burst next_mems
pausing masked x y b zero m = refl
pausing masked x y b (suc n) m = pausing masked x y b n m

-- A burst of the command side to a place.
abbrev pub burst_to : (we masked : Bool) (bank row col : ℕ) → Burst
burst_to we masked bank row col = record {
  we = we;
  masked = masked;
  bank = bank;
  row = row;
  col = col;
}

abbrev pub lane_of : ℕ → Option (ℕ → ℕ) → Option ℕ
lane_of lane none = none
lane_of lane (some word) = some (word lane)

-- The chip after a write burst with its beats, a pause, and a read burst of the same place up to a
-- beat of it.
abbrev pub written_and_read :
    (masked : Bool) (bank row col : ℕ) → List Beat → (gap beat_number : ℕ) → Beat → Data → Data
unfolding cycles step
written_and_read masked bank row col bs gap k d s =
    let w = burst_to true masked bank row col in
    let r = burst_to false false bank row col in
    cycles (replicate k (beat r d)) (
      step (trigger r)
        (cycles (replicate gap (beat w d)) (cycles (map (beat w) bs) (step (trigger w) s))))

-- A read burst of the place of a write burst, after any pause, gives in each of its 16 beats the byte
-- that the write's beat had in the lane, or, where the write was masked and DMI was high, the byte
-- that was there before.
pub written_and_read_lem :
    (masked : Bool) (bank row col : ℕ) (bs : List Beat) (gap k : ℕ) (d : Beat) (old : Bool)
    (y : Burst) (m : Memory) (lane : ℕ)
    → length bs ≡ 16
    → k < 16
    → lane_of lane
        (dq_out (written_and_read masked bank row col bs gap k d (during idle idle old y m)))
      ≡ some (
          if masked && (nth d bs k).dmi lane
          then m bank (addr row col k) lane
          else (nth d bs k).dq lane)
unfolding written written_and_read dq_out cycles step write read next_burst next_mems
written_and_read_lem masked bank row col [] gap k d old y m lane e h = absurd (omega (arith, e))
written_and_read_lem masked bank row col (b ∷ bs) gap k d old y m lane e h =
    let w = burst_to true masked bank row col in
    let r = burst_to false false bank row col in
    let m1 = stored masked w 0 (b ∷ bs) m in
    let after_write = cycles-beats masked w bs b 0 m (omega (arith, e)) in
    let after_pause =
      ap (cycles (replicate gap (beat w d))) after_write ∙ pausing masked w w d gap m1 in
    let after_read =
      ap (λ s. cycles (replicate k (beat r d)) (step (trigger r) s)) after_pause
      ∙ reading masked r d k 0 m1 (omega (arith, h)) in
    ap (λ s. lane_of lane (dq_out s)) after_read
    ∙ ap some (
        stored-nth masked w d (b ∷ bs) 0 k m lane (omega (arith, e)) (omega (arith, e, h))
        ∙ ap (λ j. written masked (nth d (b ∷ bs) k) lane (m bank (addr row col j) lane))
            (let z : 0 + k ≡ k = omega arith in z))
