-- ===== src/Tests/Bist.antt =====
-- The self test of litedram/frontend/bist.py on a pattern of two words.
use litedram.Base.{◌↔◌, ◌≡◌, refl, arith, true, false, List, [], ◌∷◌, length}
use litedram.Frontend.Bist
use litedram.Frontend.Bist.Written.{written, pattern_words, done_written}
use litedram.Frontend.Bist.Checker
use litedram.Frontend.Bist.Checker.Errors.{received, mismatches, contents, done_errors}

-- Words of four bytes, at the addresses 4 and 5.
abbrev two_words : Bist.Settings
two_words = record {
  ashift = 2;
  awidth = 10;
  address_width = 8;
  data_width = 32;
  base = 16;
  end = 32;
  length = 8;
  random_data = false;
  random_addr = false;
}

-- The start, a cycle without the port, two words and an empty FIFO, the last cycle first.
abbrev begin : Bist.Inputs
begin = record { start = true; run_cascade_in = true; sink_ready = false; fifo_valid = false }

abbrev busy : Bist.Inputs
busy = record { start = false; run_cascade_in = true; sink_ready = false; fifo_valid = true }

abbrev ready : Bist.Inputs
ready = record { start = false; run_cascade_in = true; sink_ready = true; fifo_valid = true }

abbrev empty : Bist.Inputs
empty = record { start = false; run_cascade_in = true; sink_ready = false; fifo_valid = false }

abbrev writing : List Bist.Inputs
writing = empty ∷ ready ∷ ready ∷ busy ∷ begin ∷ []

second_word :
    written two_words 9 writing
    ≡ record { address = 5; content = 2147483649 } ∷ record { address = 4; content = 0 } ∷ []
unfolding Bist.run Bist.step Bist.word_address Bist.word_data
second_word = refl

done_written_example : written two_words 9 writing ≡ pattern_words two_words 2
unfolding Bist.run Bist.step
done_written_example = done_written two_words 9 writing (omega arith) (omega arith) refl

-- The checker gets a right word and a wrong one.
abbrev start_check : Checker.Inputs
start_check = record {
  start = true;
  run_cascade_in = true;
  sink_ready = true;
  source_valid = false;
  source_data = 0;
}

abbrev idle_check : Checker.Inputs
idle_check = record {
  start = false;
  run_cascade_in = true;
  sink_ready = true;
  source_valid = false;
  source_data = 0;
}

abbrev right : Checker.Inputs
right = record {
  start = false;
  run_cascade_in = true;
  sink_ready = true;
  source_valid = true;
  source_data = 0;
}

abbrev wrong : Checker.Inputs
wrong = record {
  start = false;
  run_cascade_in = true;
  sink_ready = true;
  source_valid = true;
  source_data = 5;
}

abbrev checking : List Checker.Inputs
checking = wrong ∷ right ∷ idle_check ∷ start_check ∷ []

one_error : (Checker.run two_words 9 9 checking).errors ≡ 1
unfolding Checker.run Checker.step
one_error = refl

done_errors_example :
    (length (received two_words 9 9 checking) ≡ 2)
    × ((Checker.run two_words 9 9 checking).errors
        ≡ mismatches two_words (received two_words 9 9 checking))
    × (((Checker.run two_words 9 9 checking).errors ≡ 0)
        ↔ (received two_words 9 9 checking ≡ contents (pattern_words two_words 2)))
unfolding Checker.run Checker.step
done_errors_example =
    done_errors two_words 9 9 checking (omega arith) (omega arith) (omega arith) refl
