-- ===== src/EchoServer/Pooled/Examples.antt =====
-- Two connections on one thread; the first sends two messages.
use so_1920v_li41n.Prelude.{
  ℕ, ◌+◌, ◌*◌, ◌≤◌, ◌<◌, ◌≡◌, ◌⊎◌, refl, arith, true, Option, none, some, List, [], ◌∷◌, ◌==◌, ltb,
  if◌then◌else◌, count, length,
}
use so_1920v_li41n.EchoServer.Pooled.{
  Server, Turn, main, dispatches, serves, finished, main_start, run_step, main_step,
  dispatch_connection, process_connection, step, run,
}
use so_1920v_li41n.EchoServer.Pooled.Work.{sum_lengths}
use so_1920v_li41n.EchoServer.Pooled.Ends.{run-served}

abbrev messages : ℕ → List ℕ
messages k = if k == 0 then 5 ∷ 6 ∷ [] else []

abbrev turns_taken : List Turn
turns_taken =
    main
    ∷ dispatches
    ∷ main
    ∷ serves 0
    ∷ serves 0
    ∷ main
    ∷ serves 0
    ∷ dispatches
    ∷ serves 1
    ∷ main
    ∷ []

abbrev server_of : Server → Option Server → Server
server_of s none = s
server_of s (some s') = s'

abbrev empty : Server
empty = record {
  place = finished;
  accepted = 0;
  queue = [];
  active = [];
  closed = [];
  unread = messages;
  echoed = λ k. [];
}

abbrev begun : Server
begun = server_of empty (main_start true true messages)

abbrev over : Server
over = server_of empty (run 2 1 turns_taken begun)

main_start-begun : main_start true true messages ≡ some begun
unfolding main_start
main_start-begun = refl

run-over : run 2 1 turns_taken begun ≡ some over
unfolding run step main_start run_step main_step dispatch_connection process_connection
run-over = refl

run-served_example :
    (length turns_taken ≤ 3 * 2 + sum_lengths 2 messages + 2)
    × (((t : Turn) × (s' : Server) × (step 2 1 t over ≡ some s'))
        ⊎ ((over.place ≡ finished)
            × ((k : ℕ) → count k over.closed ≡ (if ltb k 2 then 1 else 0))
            × ((k : ℕ) → k < 2 → over.echoed k ≡ messages k)))
run-served_example = run-served messages 2 1 turns_taken (omega arith) main_start-begun run-over
