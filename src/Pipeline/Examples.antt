-- ===== src/Pipeline/Examples.antt =====
-- A file of two lines, of which the first contains the word.
use so_1920v_li41n.Prelude.{
  ℕ, ◌+◌, ◌*◌, ◌≤◌, ◌≡◌, ◌⊎◌, refl, Bool, Option, some, List, [], ◌∷◌, ◌==◌, length,
}
use so_1920v_li41n.Pipeline.{
  Pipe, start, Turn, reads, filters, presents, step, run, finished, closed, ended, Queue,
  reader_open, queue_init, reader_step, filter_step, presenter_step, queue_put_wait, queue_put_rest,
  queue_get_wait, queue_get_rest,
}
use so_1920v_li41n.Pipeline.Progress.{lines_of}
use so_1920v_li41n.Pipeline.Finish.{run-matching}
use so_1920v_li41n.Pipeline.Ending.{matching}

abbrev is_five : ℕ → Bool
is_five n = n == 5

abbrev two_lines : Option (List ℕ)
two_lines = some (5 ∷ 6 ∷ [])

abbrev turns_taken : List Turn
turns_taken =
    reads ∷ reads ∷ reads ∷ filters ∷ filters ∷ filters ∷ filters ∷ filters ∷ presents ∷ presents
    ∷ presents ∷ reads ∷ reads ∷ reads ∷ filters ∷ filters ∷ filters ∷ reads ∷ reads ∷ reads
    ∷ filters ∷ filters ∷ filters ∷ filters ∷ presents ∷ presents ∷ []

abbrev drained : Queue
drained = record { list = []; has_items = 0; has_space = 1; size = 1 }

abbrev over : Pipe
over = record {
  qreader = drained;
  qfilter = drained;
  reader = closed;
  filter = ended;
  presenter = finished;
  printed = 5 ∷ [];
  count = 1;
  frees = 1;
}

run-over : run is_five turns_taken (start two_lines) ≡ some over
unfolding run step start reader_open queue_init reader_step filter_step presenter_step
    queue_put_wait queue_put_rest queue_get_wait queue_get_rest
run-over = refl

run-matching_example :
    (length turns_taken ≤ 11 * length (lines_of two_lines) + 13)
    × (((t : Turn) × (s' : Pipe) × (step is_five t over ≡ some s'))
        ⊎ ((over.presenter ≡ finished)
            × (over.printed ≡ matching is_five (lines_of two_lines))
            × (over.count ≡ length (matching is_five (lines_of two_lines)))
            × (over.frees ≡ length (matching is_five (lines_of two_lines)))))
run-matching_example = run-matching is_five two_lines turns_taken run-over
