-- ===== src/EchoServer/Select/Examples.antt =====
-- The `select` server with the listening socket 3 and the client 5, who has sent a request.
use so_1920v_li41n.Prelude.{ℕ, ◌≡◌, true, false, ◌||◌, some, [], ◌∷◌, arith, ◌==◌, count}
use so_1920v_li41n.EchoServer.Table.{table}
use so_1920v_li41n.EchoServer.Select.{Server, loop_body}
use so_1920v_li41n.EchoServer.Select.Watched.{Watched, open_fds, loop_body-Watched}

abbrev server : Server
server = record {
  clients = λ i. 5;
  maxclient_fd = 5;
  maxclients = 1020;
  nclients = 1;
  listenfd = 3;
  rset = λ a. false;
  allset = λ a. (a == 3) || (a == 5);
  files = record { opened = 5 ∷ 3 ∷ []; closed = []; echoed = [] };
}

server-Watched : Watched server
unfolding table
server-Watched = record {
  once = λ a. ground arith;
  balance = λ a. ground arith;
  watched = λ a. ground arith;
  largest = λ a h. ground arith;
  fits = omega arith;
}

fresh : (cfd : ℕ) → some 6 ≡ some cfd → count cfd (open_fds server) ≡ 0
unfolding table
fresh cfd e = ground arith

loop_body-Watched_example :
    (s' : Server) × (loop_body 4 (λ a. true) 2 (some 6) (λ a. some 70) server ≡ some s')
    × Watched s'
loop_body-Watched_example =
    loop_body-Watched 4 (λ a. true) 2 (some 6) (λ a. some 70) server server-Watched fresh
      (omega arith)
