-- ===== src/EchoServer/Poll/Examples.antt =====
-- The `poll` server with the listening socket 3 and the client 5, who has sent a request.
use so_1920v_li41n.Prelude.{
  ℕ, ◌≡◌, ◌⊎◌, refl, true, false, some, [], ◌∷◌, arith, ◌==◌, if◌then◌else◌,
}
use so_1920v_li41n.EchoServer.Table.{table}
use so_1920v_li41n.EchoServer.Poll.{
  PollFd, Server, Read, request, waits, finished, blocked, process,
}
use so_1920v_li41n.EchoServer.Poll.Balance.{Balanced, process-Balanced}
use so_1920v_li41n.EchoServer.Poll.Stale.{one_client, process-blocked}

abbrev ready : ℕ → PollFd
ready i = record { fd = (if i == 0 then 3 else 5); readable = true; error = false }

abbrev server : Server
server = record {
  clients = ready;
  nclients = 2;
  listenfd = 3;
  files = record { opened = 5 ∷ 3 ∷ []; closed = []; echoed = [] };
}

server-Balanced : Balanced server
unfolding table
server-Balanced = record { listens = omega arith; fits = omega arith; balance = λ a. ground arith }

-- The client 5 sends the request 70; a new connection sends nothing.
abbrev request_of : ℕ → Read
request_of fd = if fd == 5 then request 70 else waits

process-Balanced_example :
    ((s' : Server) × (process 18 (some 6) request_of 2 server ≡ finished s') × Balanced s')
    ⊎ ((fd : ℕ) × (s' : Server) × (process 18 (some 6) request_of 2 server ≡ blocked fd s')
        × (request_of fd ≡ waits)
        × Balanced s')
process-Balanced_example = process-Balanced (some 6) request_of 2 server server-Balanced

process-blocked_example :
    (s' : Server) × (process 18 (some 6) request_of 2 (one_client ready 3 server.files)
      ≡ blocked 6 s')
    × (s'.files.echoed ≡ (5, 70) ∷ [])
    × (s'.files.closed ≡ [])
    × (s'.nclients ≡ 3)
process-blocked_example =
    process-blocked 6 70 request_of ready 3 server.files refl refl refl refl refl
