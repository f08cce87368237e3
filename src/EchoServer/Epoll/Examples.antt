-- ===== src/EchoServer/Epoll/Examples.antt =====
-- A connection of the echo server on epoll and the line that stops it.
use so_1920v_li41n.Prelude.{◌≡◌, refl, true, false, none, some, [], ◌∷◌, arith}
use so_1920v_li41n.EchoServer.Epoll.{
  Server, Event, init, process, loop, rem_client, terminate, read_client, process_event, close,
}
use so_1920v_li41n.EchoServer.Epoll.Ends.{
  Settled, IsReported, AllReported, AllClosed, IsSetUp, process-Settled, init-IsSetUp,
  loop-AllClosed,
}

-- The listening socket 4, the standard input and a client, 7.
abbrev busy : Server
busy = record {
  nclients = 3;
  listenfd = 4;
  epoll_fd = some 5;
  interest = 7 ∷ 0 ∷ 4 ∷ [];
  files = record { opened = 7 ∷ 5 ∷ 4 ∷ []; closed = []; echoed = [] };
}

busy-Settled : Settled busy
busy-Settled = record { counted = refl; balance = λ a ne. ground arith; apart = refl }

-- The client has ended.
abbrev ended : Event
ended = record { fd = 7; epollin = true; epollerr = false; accept = none; room = true; read = none }

abbrev connected : Event
connected = record ended { fd = 4; accept = some 8 }

abbrev line : Event
line = record ended { fd = 0 }

process-Settled_example : Settled (process (connected ∷ ended ∷ line ∷ []) busy)
unfolding IsReported
process-Settled_example =
    process-Settled (connected ∷ ended ∷ line ∷ []) busy (refl, (refl, (refl, tt))) busy-Settled

abbrev new_server : Server
new_server = record {
  nclients = 0;
  listenfd = 0;
  epoll_fd = none;
  interest = [];
  files = record { opened = []; closed = []; echoed = [] };
}

init-IsSetUp_example : IsSetUp line (init (some 4) true (some 5) true true true new_server)
init-IsSetUp_example =
    init-IsSetUp line (some 4) true (some 5) true true true new_server refl refl
      (λ e. absurd (ground arith)) (λ fd e f. absurd (ground (arith, e, f))) refl refl refl

-- The client ends, and then a line stops the server.
abbrev last_server : Server
last_server = record {
  nclients = 0;
  listenfd = 4;
  epoll_fd = some 5;
  interest = [];
  files = record { opened = 7 ∷ 5 ∷ 4 ∷ []; closed = 4 ∷ 7 ∷ []; echoed = [] };
}

busy-loop : loop ((ended ∷ []) ∷ (line ∷ []) ∷ []) busy ≡ some last_server
unfolding loop process process_event terminate rem_client read_client close
busy-loop = refl

loop-AllClosed_example : (last_server.epoll_fd ≡ busy.epoll_fd) × AllClosed last_server
unfolding AllReported IsReported
loop-AllClosed_example =
    loop-AllClosed ((ended ∷ []) ∷ (line ∷ []) ∷ []) busy-Settled ((refl, tt), ((refl, tt), tt))
      busy-loop
