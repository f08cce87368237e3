-- ===== src/Adder/Pool/Examples.antt =====
-- Ten ones, added by a pool; the main thread waits before the last signal.
use so_1920v_li41n.Prelude.{
  ℕ, ◌+◌, ◌*◌, ◌≤◌, ◌≡◌, ◌≢◌, ◌⊎◌, refl, Option, none, some, List, [], ◌∷◌, length,
}
use so_1920v_li41n.Adder.{seq_adder}
use so_1920v_li41n.Adder.Examples.{counts, empty}
use so_1920v_li41n.Adder.Sums.{sum_from}
use so_1920v_li41n.Latch.{cdl_init, cdl_signal_one, cdl_wait_for_all}
use so_1920v_li41n.Adder.Pool.{
  State, Turn, main, wakes, takes, sums, signals, par_adder_start, par_adder_submit, par_adder_wait,
  main_step, wake_step, take_step, oper_func_sum, oper_func_signal, step, run,
}
use so_1920v_li41n.Adder.Pool.Ends.{wakings, run-total}

abbrev ones : ℕ → ℕ
ones i = 1

abbrev turns_taken : List Turn
turns_taken =
    main
    ∷ takes
    ∷ main
    ∷ sums 0
    ∷ main
    ∷ takes
    ∷ main
    ∷ takes
    ∷ takes
    ∷ sums 2
    ∷ signals 2
    ∷ sums 1
    ∷ main
    ∷ signals 0
    ∷ wakes
    ∷ sums 3
    ∷ main
    ∷ signals 1
    ∷ signals 3
    ∷ main
    ∷ main
    ∷ []

abbrev state_of : Option (State ℕ) → State ℕ
state_of none = par_adder_start counts ones 10 empty
state_of (some s) = s

abbrev over : State ℕ
over = state_of (run counts ones 10 turns_taken (par_adder_start counts ones 10 empty))

run-over : run counts ones 10 turns_taken (par_adder_start counts ones 10 empty) ≡ some over
unfolding run step par_adder_start par_adder_submit par_adder_wait main_step wake_step take_step
    oper_func_sum oper_func_signal cdl_init cdl_signal_one cdl_wait_for_all
run-over = refl

run-total_example :
    (length turns_taken ≤ 23 + 2 * wakings turns_taken)
    × (((t : Turn) × (t ≢ wakes) × (s' : State ℕ) × (step counts ones 10 t over ≡ some s'))
        ⊎ ((total : ℕ) × (over.result ≡ some total)
            × (seq_adder counts ones 10 ≡ total + sum_from counts ones 8 2)))
run-total_example = run-total counts ones 10 empty turns_taken run-over
