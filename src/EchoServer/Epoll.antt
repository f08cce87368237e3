-- ===== src/EchoServer/Epoll.antt =====
-- aula-06-03/servers_tests/echo_service/echo_ip_epollchannel/echo_srv.c: the echo server on epoll,
-- which a line on the standard input, descriptor 0, stops.
mod Examples
pub mod Ends
use so_1920v_li41n.Prelude.{
  ℕ, ◌+◌, ◌-◌, Bool, true, false, ◌&&◌, ◌||◌, not, Option, none, some, List, [], ◌∷◌, ◌==◌, ltb,
  if◌then◌else◌, has, count,
}
use so_1920v_li41n.EchoServer.{
  Files, open_fd, close_fd, process_request, bound, no_socket, not_bound, create_bind_server_socket,
}

-- `epoll_fd` is the descriptor of the epoll instance, if it has been made, and `interest` what the
-- instance holds. No function closes `epoll_fd`.
pub record Server : Type 0 where
  pub nclients : ℕ
  pub listenfd : ℕ
  pub epoll_fd : Option ℕ
  pub interest : List ℕ
  pub files : Files

-- The list without the first occurrence of a number.
abbrev pub without : ℕ → List ℕ → List ℕ
without fd [] = []
without fd (x ∷ xs) = if x == fd then xs else x ∷ without fd xs

-- `close` has no effect on a descriptor that is not open.
unfoldable pub close : ℕ → Files → Files
close fd f = if ltb (count fd f.closed) (count fd f.opened) then close_fd fd f else f

-- `EPOLL_CTL_ADD` fails for a descriptor that the instance holds, or where there is no room for
-- another, as `room` tells. The result tells whether the return value is 0.
unfoldable pub add_client : (cfd : ℕ) (room : Bool) → Server → Bool × Server
add_client cfd room s =
    if room && not (has cfd s.interest)
    then (true, record s { interest = cfd ∷ s.interest; nclients = s.nclients + 1 })
    else (false, s)

-- `EPOLL_CTL_DEL` fails for a descriptor that the instance does not hold.
unfoldable pub rem_client : (cfd : ℕ) → Server → Server
rem_client cfd s =
    if has cfd s.interest
    then record s { interest = without cfd s.interest; nclients = s.nclients - 1 }
    else s

-- An event: its descriptor and which of EPOLLIN and EPOLLERR are set, with what the calls give that
-- it leads to: `accept` a descriptor and `read` a request, if any.
pub record Event : Type 0 where
  pub fd : ℕ
  pub epollin : Bool
  pub epollerr : Bool
  pub accept : Option ℕ
  pub room : Bool
  pub read : Option ℕ

-- A new connection; the result tells whether `process` goes on to the next event.
unfoldable pub accept_client : Event → Server → Bool × Server
accept_client e s = elim e.accept [
  | none ↦ (false, s)
  | some cfd ↦
      let s = record s { files = open_fd cfd s.files } in
      let (added, s') = add_client cfd e.room s in
      if added then (true, s') else (false, record s' { files = close cfd s'.files })
]

-- The line on the standard input.
unfoldable pub terminate : Server → Server
terminate s =
    let s' = rem_client 0 (rem_client s.listenfd s) in
    record s' { files = close s.listenfd s'.files }

unfoldable pub read_client : Event → Server → Server
read_client e s = elim e.read [
  | none ↦ let s' = rem_client e.fd s in record s' { files = close e.fd s'.files }
  | some request ↦ record s { files = process_request e.fd request s.files }
]

-- A round of the loop of `process`.
unfoldable pub process_event : Event → Server → Bool × Server
process_event e s =
    if (e.fd == s.listenfd) && e.epollin
    then accept_client e s
    else if e.epollin || e.epollerr
    then (if e.fd == 0 then (true, terminate s) else (true, read_client e s))
    else (true, s)

unfoldable pub process : List Event → Server → Server
process [] s = s
process (e ∷ events) s =
    let (goes_on, s') = process_event e s in
    let rest = process events s' in if goes_on then rest else s'

-- `close(listenfd)`
abbrev pub close_listenfd : Server → Server
close_listenfd s = record s { files = close s.listenfd s.files }

-- What `init` returns, negated, and the state that it leaves. A socket that is not bound is a
-- negative number, which no instance takes; `listenfd` is not set to it here. `epoll` is the descriptor that
-- epoll_create gives, if any.
unfoldable pub init :
    (socket : Option ℕ) (bind : Bool) (epoll : Option ℕ) (room_listen room_stdin listen : Bool)
    → Server
    → ℕ × Server
init socket bind epoll room_listen room_stdin listen s =
    let (listenfd, files) = create_bind_server_socket socket bind s.files in
    let s = record s { files = files } in
    elim listenfd [
      | no_socket ↦ (1, s)
      | not_bound ↦ (2, s)
      | bound sfd ↦
          let s = record s { listenfd = sfd } in
          elim epoll [
            | none ↦ (2, close_listenfd (record s { epoll_fd = none }))
            | some efd ↦
                let made = record s {
                  epoll_fd = some efd;
                  files = open_fd efd s.files;
                  nclients = 0;
                  interest = [];
                } in
                let (added, s1) = add_client sfd room_listen made in
                let (added_stdin, s2) = add_client 0 room_stdin s1 in
                if added
                then (if added_stdin
                    then (if listen then (0, s2) else (4, close_listenfd s2))
                    else (2, close_listenfd s2))
                else (2, close_listenfd s1)
          ]
    ]

-- The loop, on the batches that `epoll_wait` gives; `none` where it waits for another.
unfoldable pub loop : List (List Event) → Server → Option Server
loop [] s = if s.nclients == 0 then some s else none
loop (batch ∷ batches) s =
    let rest = loop batches (process batch s) in if s.nclients == 0 then some s else rest
