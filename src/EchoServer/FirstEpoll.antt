-- ===== src/EchoServer/FirstEpoll.antt =====
-- aula-06-01/servers_tests/echo_service/echo_ip_epoolchannel/echo_srv.c: the first echo server on
-- epoll. It closes the descriptor of a connection that ends before it takes it from the epoll instance.
mod Examples
pub mod Counts
use so_1920v_li41n.Prelude.{
  ℕ, ◌+◌, ◌-◌, Bool, true, false, ◌&&◌, ◌||◌, not, Option, none, some, List, [], ◌∷◌, ◌==◌,
  if◌then◌else◌, has,
}
use so_1920v_li41n.EchoServer.{
  Files, open_fd, process_request, bound, no_socket, not_bound, create_bind_server_socket,
}
use so_1920v_li41n.EchoServer.Epoll
use so_1920v_li41n.EchoServer.Epoll.{Event, without}

-- `interest` is what the epoll instance holds.
pub record Server : Type 0 where
  pub nclients : ℕ
  pub listenfd : ℕ
  pub interest : List ℕ
  pub files : Files

-- `close` takes the descriptor from the epoll instance too.
unfoldable pub close : (fd : ℕ) → Server → Server
close fd s = record s { files = Epoll.close fd s.files; interest = without fd s.interest }

-- `EPOLL_CTL_ADD` fails for a descriptor that the instance holds, or where there is no room for
-- another, as `room` tells. The result tells whether the return value is 0.
unfoldable pub add_client : (cfd : ℕ) (room : Bool) → Server → Bool × Server
add_client cfd room s =
    if room && not (has cfd s.interest)
    then (true, record s { interest = cfd ∷ s.interest; nclients = s.nclients + 1 })
    else (false, s)

-- `EPOLL_CTL_DEL` fails for a descriptor that the instance does not hold.
unfoldable pub rem_client : (cfd : ℕ) → Server → Server
rem_client cfd s =
    if has cfd s.interest
    then record s { interest = without cfd s.interest; nclients = s.nclients - 1 }
    else s

-- A new connection; the result tells whether `process` goes on to the next event.
unfoldable pub accept_client : Event → Server → Bool × Server
accept_client e s = elim e.accept [
  | none ↦ (false, s)
  | some cfd ↦
      let s = record s { files = open_fd cfd s.files } in
      let (added, s') = add_client cfd e.room s in
      if added then (true, s') else (false, close cfd s')
]

unfoldable pub read_client : Event → Server → Server
read_client e s = elim e.read [
  | none ↦ rem_client e.fd (close e.fd s)
  | some request ↦ record s { files = process_request e.fd request s.files }
]

-- A round of the loop of `process`.
unfoldable pub process_event : Event → Server → Bool × Server
process_event e s =
    if (e.fd == s.listenfd) && e.epollin
    then accept_client e s
    else if e.epollin || e.epollerr
    then (true, read_client e s)
    else (true, s)

unfoldable pub process : List Event → Server → Server
process [] s = s
process (e ∷ events) s =
    let (goes_on, s') = process_event e s in
    let rest = process events s' in if goes_on then rest else s'

-- What `init` returns, negated, and the state that it leaves. A socket that is not bound is a
-- negative number, which no instance takes; `listenfd` is not set to it here.
unfoldable pub init :
    (socket : Option ℕ) (bind epoll : Bool) (room listen : Bool) → Server → ℕ × Server
init socket bind epoll room listen s =
    let (listenfd, files) = create_bind_server_socket socket bind s.files in
    let s = record s { files = files } in
    elim listenfd [
      | no_socket ↦ (1, s)
      | not_bound ↦ if epoll then (3, s) else (2, s)
      | bound sfd ↦
          let s = record s { listenfd = sfd; interest = [] } in
          let watched = record s { interest = sfd ∷ [] } in
          if epoll
          then (if room
              then (if listen then (0, record watched { nclients = 1 }) else (4, close sfd watched))
              else (3, close sfd s))
          else (2, close sfd s)
    ]

-- The loop, on the batches that `epoll_wait` gives; it has no end.
unfoldable pub loop : List (List Event) → Server → Server
loop [] s = s
loop (batch ∷ batches) s = loop batches (process batch s)
