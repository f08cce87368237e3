-- ===== src/EchoServer/Uv/Examples.antt =====
-- A client comes, a line is read on the standard input, and the client leaves.
use so_1920v_li41n.Prelude.{
  ℕ, ◌+◌, ◌≡◌, Bool, true, false, not, some, List, [], ◌∷◌, count, refl, arith,
}
use mathlib.Core.Path.{subst}
use so_1920v_li41n.EchoServer.Uv.{
  Server, failed, received, Callback, connection, stdin_read, read, callback, main_start, free,
  on_close, read_stdin_completion, read_completion, on_new_connection,
}
use so_1920v_li41n.EchoServer.Uv.Loop.{
  Loop, new_loop, request, requests, reported, IsDocumented, turn, turns, AllDocumented, uv_main,
}
use so_1920v_li41n.EchoServer.Uv.Sound.{Inv}
use so_1920v_li41n.EchoServer.Uv.Runs.{turns-Inv, turns-ends, has_stdin}

documented :
    (c : Callback) (cs : List Callback) (w w1 : Server × Loop)
    → IsDocumented c w.0 w.1
    → turn c w ≡ some w1
    → AllDocumented cs w1
    → AllDocumented (c ∷ cs) w
unfolding AllDocumented
documented c cs w w1 d h ds =
    (d, λ w' e. let g : w1 ≡ w' = ground (arith, h, e) in subst (AllDocumented cs) g ds)

abbrev idle : Server
idle = record { nclients = 0; to_destroy = false; blocks = [] }

abbrev idle_loop : Loop
idle_loop = record new_loop { input_open = true; server_open = true }

abbrev served : Bool → Server × Loop
served asked = (
  record { nclients = 1; to_destroy = asked; blocks = 9 ∷ 8 ∷ [] },
  record idle_loop { opened = 8 ∷ []; reading = 8 ∷ []; works = 9 ∷ [] },
)

abbrev left : Server
left = record { nclients = 0; to_destroy = true; blocks = 9 ∷ 8 ∷ [] }

abbrev left_loop : Loop
left_loop = record new_loop { closing = 8 ∷ []; works = 9 ∷ [] }

abbrev visit : List Callback
visit = connection true 8 9 true ∷ stdin_read ∷ read 8 failed ∷ []

uv_main-idle : uv_main 0 ≡ some (idle, idle_loop)
unfolding uv_main main_start requests request
uv_main-idle = refl

visit-AllDocumented : AllDocumented visit (idle, idle_loop)
unfolding AllDocumented IsDocumented turn callback reported requests request free on_close
    read_stdin_completion read_completion on_new_connection
visit-AllDocumented =
    documented (connection true 8 9 true) (stdin_read ∷ read 8 failed ∷ []) (idle, idle_loop)
      (served false) (refl, omega arith, omega arith, omega arith, refl, refl) refl
      (documented stdin_read (read 8 failed ∷ []) (served false) (served true) refl refl
        (documented (read 8 failed) [] (served true) (left, left_loop) refl refl tt))

visit-turns : turns visit (idle, idle_loop) ≡ some (left, left_loop)
unfolding turns turn callback reported requests request free on_close read_stdin_completion
    read_completion on_new_connection
visit-turns = refl

-- The client sends twice, and the first answer is still being written when the second message comes.
abbrev crowded : List Callback
crowded = connection true 8 9 true ∷ read 8 (received 3) ∷ read 8 (received 2) ∷ []

abbrev answering : Server × Loop
answering = (
  record { nclients = 1; to_destroy = false; blocks = 9 ∷ 8 ∷ [] },
  record idle_loop { opened = 8 ∷ []; reading = 8 ∷ []; works = 9 ∷ []; writing = 8 ∷ [] },
)

abbrev answering_twice : Server × Loop
answering_twice = (answering.0, record answering.1 { writing = 8 ∷ 8 ∷ []; reused = true })

crowded-AllDocumented : AllDocumented crowded (idle, idle_loop)
unfolding AllDocumented IsDocumented turn callback reported requests request free on_close
    read_stdin_completion read_completion on_new_connection
crowded-AllDocumented =
    documented (connection true 8 9 true) (read 8 (received 3) ∷ read 8 (received 2) ∷ [])
      (idle, idle_loop) (served false) (refl, omega arith, omega arith, omega arith, refl, refl)
      refl
      (documented (read 8 (received 3)) (read 8 (received 2) ∷ []) (served false) answering refl
        refl (documented (read 8 (received 2)) [] answering answering_twice refl refl tt))

turns-Inv_example :
    (s' : Server) × (l' : Loop) × (turns crowded (idle, idle_loop) ≡ some (s', l'))
    × Inv s' l'
    × (l'.reused ≡ true)
turns-Inv_example = turns-Inv crowded uv_main-idle crowded-AllDocumented

turns-ends_example :
    (left_loop.server_open ≡ not (has_stdin visit))
    × (left_loop.input_open ≡ not (has_stdin visit))
    × ((x : ℕ) → count x left.blocks ≡ count x left_loop.closing + count x left_loop.works)
turns-ends_example = turns-ends visit uv_main-idle visit-AllDocumented visit-turns refl
