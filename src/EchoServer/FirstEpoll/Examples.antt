-- ===== src/EchoServer/FirstEpoll/Examples.antt =====
-- Two clients of the first echo server on epoll, of which the first has ended.
use so_1920v_li41n.Prelude.{◌+◌, ◌≡◌, refl, true, false, none, some, List, [], ◌∷◌, length}
use so_1920v_li41n.EchoServer.Epoll.{Event}
use so_1920v_li41n.EchoServer.FirstEpoll.{Server, init, loop}
use so_1920v_li41n.EchoServer.{create_bind_server_socket}
use so_1920v_li41n.EchoServer.FirstEpoll.Counts.{loop-nclients, all_refusals}

abbrev new_server : Server
new_server = record {
  nclients = 0;
  listenfd = 0;
  interest = [];
  files = record { opened = []; closed = []; echoed = [] };
}

abbrev listening : Server
listening = record {
  nclients = 1;
  listenfd = 3;
  interest = 3 ∷ [];
  files = record { opened = 3 ∷ []; closed = []; echoed = [] };
}

abbrev connected : Event
connected = record {
  fd = 3;
  epollin = true;
  epollerr = false;
  accept = some 5;
  room = true;
  read = none;
}

abbrev batches : List (List Event)
batches = (connected ∷ []) ∷ (record connected { fd = 5 } ∷ []) ∷ (connected ∷ []) ∷ []

listening-init : init (some 3) true true true true new_server ≡ (0, listening)
unfolding init create_bind_server_socket
listening-init = refl

loop-nclients_example :
    (loop batches listening).nclients
      + all_refusals batches listening
      + length new_server.files.opened
    ≡ length (loop batches listening).files.opened
loop-nclients_example = loop-nclients (some 3) true true true true batches new_server listening-init
