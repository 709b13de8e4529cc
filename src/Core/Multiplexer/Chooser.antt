-- ===== src/Core/Multiplexer/Chooser.antt =====
-- `_CommandChooser` of litedram/core/multiplexer.py. The round-robin arbiter is a component of
-- another library: its grant is an argument.
use litedram.Base.{ℕ, zero, suc, Bool, true, false, not, ◌&&◌, ◌||◌, List, [], ◌∷◌, ◌==◌}

pub record Request : Type 0 where
  pub valid : Bool
  pub a : ℕ
  pub ba : ℕ
  pub is_read : Bool
  pub is_write : Bool
  pub is_cmd : Bool
  pub cas : Bool
  pub ras : Bool
  pub we : Bool

pub record Wants : Type 0 where
  pub reads : Bool
  pub writes : Bool
  pub cmds : Bool
  pub activates : Bool

-- `==` on bits.
abbrev pub same : Bool → Bool → Bool
same true b = b
same false b = not b

-- Also `is_act_cmd`.
abbrev pub activate : Request → Bool
activate r = r.ras && (not r.cas && not r.we)

-- The bit of `valids` for a request.
unfoldable pub wanted : Wants → Request → Bool
wanted w r =
    r.valid
    && ((r.is_cmd && (w.cmds && (not (activate r) || w.activates)))
        || (same r.is_read w.reads && same r.is_write w.writes))

-- `Array(...)[i]`: beyond the end it is the last entry.
unfoldable pub choice : Request → List Request → ℕ → Request
choice r [] i = r
choice r (x ∷ xs) zero = r
choice r (x ∷ xs) (suc i) = choice x xs i

-- `cmd`, from the requests (the first of them apart) and the grant.
unfoldable pub choose : Wants → Request → List Request → ℕ → Request
unfolding wanted choice
choose w r rs grant =
    let c = choice r rs grant in
    let valid = wanted w c in
    record {
      valid = valid;
      a = c.a;
      ba = c.ba;
      is_read = c.is_read;
      is_write = c.is_write;
      is_cmd = c.is_cmd;
      cas = valid && c.cas;
      ras = valid && c.ras;
      we = valid && c.we;
    }

-- `request.ready` for the request number `i`.
unfoldable pub request_ready : Request → Bool → ℕ → ℕ → Bool
request_ready cmd ready grant i = (cmd.valid && ready) && (grant == i)

-- `arbiter.ce`.
unfoldable pub arbitrate : Request → Bool → Bool
arbitrate cmd ready = ready || not cmd.valid
