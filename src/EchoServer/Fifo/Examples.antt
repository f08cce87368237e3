-- ===== src/EchoServer/Fifo/Examples.antt =====
-- One client of one try.
use so_1920v_li41n.Prelude.{
  ℕ, ◌+◌, ◌*◌, ◌≤◌, ◌<◌, ◌≡◌, ◌⊎◌, refl, true, Option, none, some, List, [], ◌∷◌, length,
}
use so_1920v_li41n.EchoServer.Fifo.{
  System, ended, new_system, open_client_fifo, run_step, client_step, step, run,
}
use so_1920v_li41n.EchoServer.Fifo.Answers.{tries}
use so_1920v_li41n.EchoServer.Fifo.Ends.{run-answered}

abbrev turns_taken : List (Option ℕ)
turns_taken = some 0 ∷ some 0 ∷ none ∷ some 0 ∷ []

abbrev system_of : Option System → System
system_of none = new_system
system_of (some s) = s

abbrev over : System
over = system_of (run 1 1 turns_taken new_system)

run-over : run 1 1 turns_taken new_system ≡ some over
unfolding run step new_system run_step client_step open_client_fifo
run-over = refl

run-answered_example :
    (length turns_taken ≤ 1 * (3 * 1 + 1))
    × (over.up ≡ true)
    × (((t : Option ℕ) × (s' : System) × (step 1 1 t over ≡ some s'))
        ⊎ ((k : ℕ) → k < 1 → (over.client k ≡ ended) × (over.got k ≡ tries 1)))
run-answered_example = run-answered 1 1 turns_taken run-over
