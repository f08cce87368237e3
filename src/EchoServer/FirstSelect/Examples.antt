-- ===== src/EchoServer/FirstSelect/Examples.antt =====
-- A new connection while the client in slot 0 of the first server on select ends.
use so_1920v_li41n.Prelude.{
  ℕ, ◌≡◌, ◌≤◌, ◌⊎◌, refl, true, Option, none, some, [], ◌∷◌, arith, ◌==◌, count, ap,
}
use so_1920v_li41n.EchoServer.FirstSelect.{
  Server, finished, overflow, fd_setsize, loop_body, process,
}
use so_1920v_li41n.EchoServer.FirstSelect.Slots.{slots_fds, slots_fds-none}
use so_1920v_li41n.EchoServer.FirstSelect.Watched.{Watched}
use so_1920v_li41n.EchoServer.FirstSelect.Rounds.{loop_body-Watched_slots, process-overflows}

abbrev empty_slots : ℕ → Option ℕ
empty_slots i = none

-- The listening socket 3 and no client.
abbrev quiet : Server
quiet = record {
  clients = empty_slots;
  maxclient_fd = 3;
  maxclient_idx = 0;
  maxclients = 1020;
  nclients = 0;
  listenfd = 3;
  rset = λ a. a == 3;
  allset = λ a. a == 3;
  files = record { opened = 3 ∷ []; closed = []; echoed = [] };
}

no_fds : (a : ℕ) → count a (slots_fds fd_setsize empty_slots) ≡ 0
no_fds a = ap (λ xs. count a xs) (slots_fds-none fd_setsize empty_slots (λ i lt. refl))

quiet-Watched : Watched quiet
quiet-Watched = record {
  once = λ a. ground (arith, no_fds a);
  balance = λ a. ground (arith, no_fds a);
  watched = λ a. ground (arith, no_fds a);
  largest = λ a h. ground (arith, no_fds a, h);
  empty = λ i more lt. refl;
  inside = omega arith;
  small = λ a h. ground (arith, no_fds a, h);
  counts = (refl, refl);
}

loop_body-Watched_slots_example :
    ((s' : Server) × (loop_body 1025 (λ a. true) 1 (some 5) (λ a. none) quiet ≡ finished s')
      × Watched s')
    ⊎ ((cfd : ℕ) × (some 5 ≡ some cfd)
        × (fd_setsize ≤ cfd)
        × (loop_body 1025 (λ a. true) 1 (some 5) (λ a. none) quiet ≡ overflow))
loop_body-Watched_slots_example =
    loop_body-Watched_slots 1025 (λ a. true) 1 (some 5) (λ a. none) quiet quiet-Watched
      (λ cfd e. ground (arith, e, no_fds cfd)) (omega arith)

process-overflows_example : process 1025 (some 1024) (λ a. none) 1 quiet ≡ overflow
process-overflows_example =
    process-overflows 1025 (λ a. none) 1 1024 7 quiet quiet-Watched refl (omega arith) refl
      (omega arith)
