-- ===== src/Tests/Frontend.antt =====
-- The frontend of litedram/frontend on short histories.
use litedram.Base.{
  ◌≤◌, ◌≡◌, refl, arith, ℕ, Bool, true, false, ◌&&◌, List, [], ◌∷◌, ◌==◌, ltb, length, after,
}
use litedram.Frontend.SyncFifo.{SyncFifo, pop, push, sink_ready}
use litedram.Frontend.Dma
use litedram.Frontend.Dma.Reservation.{answer_has_place}
use litedram.Frontend.Dma.Walk.{walk_run, taken, walk, is_done, taken_walks}
use litedram.Frontend.DramFifo
use litedram.Frontend.DramFifo.Order.{Widths, Counts, run-Counts}
use litedram.Frontend.DownConverter
use litedram.Frontend.DownConverter.Split.{accepted, issued, split, issued_split, ready_after_ratio}

-- A queue of a list.
abbrev queue : (A : Type 0) (depth : ℕ) → SyncFifo A depth
queue A depth = record {
  State = List A;
  empty = [];
  items = λ s. s;
  step = λ valid item ready s. push (valid && ltb (length s) depth) item (pop ready s);
  items_empty = refl;
  items_step = λ valid item ready s. refl;
}

-- The reader takes an address in one cycle and gets its word in the next, with a depth of 1.
abbrev ask : Dma.Inputs
ask = record {
  enable = true;
  sink_valid = true;
  sink_last = false;
  cmd_ready = true;
  rdata_valid = false;
  rdata = 0;
  source_ready = false;
}

abbrev answer : Dma.Inputs
answer = record {
  enable = true;
  sink_valid = true;
  sink_last = false;
  cmd_ready = true;
  rdata_valid = true;
  rdata = 7;
  source_ready = false;
}

-- One place: the second address waits until the source has taken the word.
asks_once :
    Dma.cmd_valid (queue Bool 1) (queue ℕ 1) ask (Dma.run (queue Bool 1) (queue ℕ 1) (ask ∷ []))
    ≡ false
unfolding Dma.cmd_valid Dma.run Dma.step
asks_once = refl

answer_has_place_example :
    sink_ready (queue ℕ 1) (Dma.run (queue Bool 1) (queue ℕ 1) (ask ∷ [])).fifo_state ≡ true
unfolding Dma.run Dma.step Dma.issued
answer_has_place_example =
    answer_has_place (queue Bool 1) (queue ℕ 1) answer (ask ∷ [])
      ((λ v. omega arith), ((λ v. cc), tt)) refl

-- The walk of two words from the address 16.
abbrev two_words : Dma.Csr
two_words = record { width = 4; base = 16; length = 2; loop = false }

taken_walks_example :
    (taken two_words (true ∷ true ∷ true ∷ [])
      ≡ walk two_words (length (taken two_words (true ∷ true ∷ true ∷ []))))
    × (length (taken two_words (true ∷ true ∷ true ∷ [])) ≤ 2)
    × (is_done (walk_run two_words (true ∷ true ∷ true ∷ [])).fsm
        ≡ (length (taken two_words (true ∷ true ∷ true ∷ [])) == 2))
taken_walks_example =
    taken_walks two_words (true ∷ true ∷ true ∷ []) refl (omega arith) (omega arith)

-- Four words from the address 8 on.
abbrev four_words : DramFifo.Settings
four_words = record { base = 8; depth = 4; level_width = 3; address_width = 2 }

abbrev four_words_fit : Widths four_words
four_words_fit = record { positive = omega arith; level = omega arith; address = omega arith }

abbrev put : DramFifo.Inputs
put = record { sink_valid = true; writer_ready = true; reader_ready = false }

abbrev both : DramFifo.Inputs
both = record { sink_valid = true; writer_ready = true; reader_ready = true }

-- The fifth word goes to the address of the first, which has been read.
wraps :
    DramFifo.write_address four_words (DramFifo.run four_words (both ∷ put ∷ put ∷ put ∷ [])) ≡ 8
unfolding DramFifo.run DramFifo.step DramFifo.inc DramFifo.write_address DramFifo.write
    DramFifo.read
wraps = refl

run-Counts_example : Counts four_words (DramFifo.run four_words (both ∷ put ∷ put ∷ [])) 3 1
unfolding DramFifo.write DramFifo.read DramFifo.run
run-Counts_example = run-Counts four_words (both ∷ put ∷ put ∷ []) four_words_fit

-- A command of a port becomes two of one of half the width.
abbrev halves : DownConverter.Settings
halves = record { ratio = 2; count_width = 1; to_width = 5 }

abbrev go : DownConverter.Inputs
go = record { from_valid = true; from_cmd = record { we = true; addr = 3 }; to_ready = true }

abbrev rest : DownConverter.Inputs
rest = record { from_valid = false; from_cmd = record { we = false; addr = 0 }; to_ready = true }

two_commands :
    issued halves (rest ∷ rest ∷ go ∷ [])
    ≡ record { we = true; addr = 7 } ∷ record { we = true; addr = 6 } ∷ []
unfolding DownConverter.run DownConverter.step DownConverter.to_cmd
two_commands = refl

issued_split_example :
    issued halves (rest ∷ rest ∷ go ∷ []) ≡ split halves (accepted halves (rest ∷ rest ∷ go ∷ []))
unfolding DownConverter.run DownConverter.step
issued_split_example = issued_split halves (rest ∷ rest ∷ go ∷ []) (omega arith) (omega arith) refl

abbrev converting : DownConverter.Converter
converting = record {
  fsm = DownConverter.convert;
  cmd_count = 0;
  cmd = record { we = true; addr = 3 };
}

ready_after_ratio_example :
    DownConverter.from_ready (after (DownConverter.step halves) converting (rest ∷ rest ∷ []))
    ≡ true
ready_after_ratio_example =
    ready_after_ratio halves converting rest (rest ∷ []) (omega arith) refl refl (refl, (refl, tt))
      (omega arith)
