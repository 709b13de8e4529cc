-- ===== src/Core/Crossbar.antt =====
-- `LiteDRAMCrossbar` of litedram/core/crossbar.py: routes the commands of the masters to the banks
-- that they address, and the banks' data handshakes back. What the round-robin arbiters grant is an
-- input.
pub mod Routing
use litedram.Base.{
  ℕ, zero, suc, ◌+◌, ◌%◌, ◌^◌, Bool, true, false, not, ◌&&◌, ◌||◌, Option, none, some, List, [],
  ◌∷◌, ◌==◌, if◌then◌else◌,
}
use litedram.Common.Port.{get_bank_address, get_row_column_address}

pub record Settings : Type 0 where
  pub bank_bits : ℕ
  pub rca_bits : ℕ
  pub cba_shift : ℕ

-- The command of a master.
pub record Master : Type 0 where
  pub valid : Bool
  pub we : Bool
  pub addr : ℕ

-- What a bank drives, and its arbiter's grant.
pub record Bank : Type 0 where
  pub grant : ℕ
  pub ready : Bool
  pub lock : Bool
  pub wdata_ready : Bool
  pub rdata_valid : Bool

abbrev pub bank_of : Settings → Master → ℕ
bank_of g m = get_bank_address m.addr g.bank_bits g.cba_shift

-- `locked`, over the banks from number `k` on: another bank than `nb` is locked by master `nm`.
unfoldable pub locked_from : (k nb nm : ℕ) → List Bank → Bool
locked_from k nb nm [] = false
locked_from k nb nm (b ∷ bs) =
    (not (k == nb) && (b.lock && (b.grant == nm))) || locked_from (suc k) nb nm bs

unfoldable pub bank_selected : Settings → List Bank → (nb nm : ℕ) → Master → Bool
unfolding locked_from
bank_selected g banks nb nm m = (bank_of g m == nb) && not (locked_from 0 nb nm banks)

unfoldable pub bank_requested : Settings → List Bank → (nb nm : ℕ) → Master → Bool
unfolding bank_selected
bank_requested g banks nb nm m = bank_selected g banks nb nm m && m.valid

-- `arbiter.ce`.
unfoldable pub arbitrate : (valid lock : Bool) → Bool
arbitrate valid lock = not valid && not lock

-- What a bank is given from the master that its arbiter grants.
pub record Command : Type 0 where
  pub valid : Bool
  pub we : Bool
  pub addr : ℕ

unfoldable pub bank_command : Settings → List Bank → (nb grant : ℕ) → Master → Command
unfolding bank_requested
bank_command g banks nb grant m = record {
  valid = bank_requested g banks nb grant m;
  we = m.we;
  addr = get_row_column_address m.addr g.bank_bits g.rca_bits g.cba_shift;
}

-- `master_readys`, over the banks from number `k` on; `all` are the banks.
unfoldable pub ready_from : Settings → (all : List Bank) → (k nm : ℕ) → Master → List Bank → Bool
unfolding bank_selected
ready_from g all k nm m [] = false
ready_from g all k nm m (b ∷ bs) =
    ((b.grant == nm) && (bank_selected g all k nm m && b.ready)) || ready_from g all (suc k) nm m bs

unfoldable pub master_ready : Settings → List Bank → ℕ → Master → Bool
unfolding ready_from
master_ready g banks nm m = ready_from g banks 0 nm m banks

-- `master_wdata_readys` and `master_rdata_valids`, before their delays.
unfoldable pub master_wdata_ready : ℕ → List Bank → Bool
master_wdata_ready nm [] = false
master_wdata_ready nm (b ∷ bs) = ((b.grant == nm) && b.wdata_ready) || master_wdata_ready nm bs

unfoldable pub master_rdata_valid : ℕ → List Bank → Bool
master_rdata_valid nm [] = false
master_rdata_valid nm (b ∷ bs) = ((b.grant == nm) && b.rdata_valid) || master_rdata_valid nm bs

abbrev any_ready : List (Bool × ℕ) → Bool
any_ready [] = false
any_ready ((r, word) ∷ ms) = r || any_ready ms

-- `controller.wdata` (or `wdata_we`): the word of the one master that is ready, and 0 otherwise.
unfoldable pub controller_wdata : List (Bool × ℕ) → ℕ
controller_wdata [] = 0
controller_wdata ((true, word) ∷ ms) = if any_ready ms then 0 else word
controller_wdata ((false, word) ∷ ms) = controller_wdata ms
