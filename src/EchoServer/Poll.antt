-- ===== src/EchoServer/Poll.antt =====
-- aula-06-03/servers_tests/echo_service/echo_ip_pollchannel/echo_srv.c: the server on `poll`.
-- A negative count of ready descriptors stands as 0: `process` tests only whether it is positive.
pub mod Balance
mod Examples
mod Stale
use so_1920v_li41n.Prelude.{
  ℕ, zero, suc, ◌+◌, ◌-◌, Bool, true, false, ◌||◌, ◌&&◌, Option, none, some, List, [], ◌∷◌, ◌==◌,
  ltb, if◌then◌else◌, update,
}
use so_1920v_li41n.EchoServer.{
  Files, open_fd, close_fd, process_request, Bound, bound, no_socket, not_bound,
  create_bind_server_socket,
}

-- struct pollfd, with the bits of `revents` that the server reads. `events` is always POLLRDNORM.
pub record PollFd : Type 0 where
  pub fd : ℕ
  pub readable : Bool
  pub error : Bool

pub record Server : Type 0 where
  pub clients : ℕ → PollFd
  pub nclients : ℕ
  pub listenfd : ℕ
  pub files : Files

-- FOPEN_MAX
abbrev pub fopen_max : ℕ
fopen_max = 16

-- A failed binding leaves a negative descriptor, on which `listen` fails and `close` does nothing.
unfoldable pub init : (socket : Option ℕ) (bind listen : Bool) → Server → Bool × Server
init socket bind listen s =
    let (listenfd, files) = create_bind_server_socket socket bind s.files in
    elim listenfd [
      | no_socket ↦ (false, record s { files = files })
      | not_bound ↦ (false, record s { files = files })
      | bound sfd ↦
          if listen
          then (
            true,
            record s {
              clients = update s.clients 0 (record (s.clients 0) { fd = sfd });
              nclients = 1;
              listenfd = sfd;
              files = files;
            },
          )
          else (false, record s { listenfd = sfd; files = close_fd sfd files })
    ]

-- `none` for -1. The bits of `revents` stay as they were in the slot.
unfoldable pub add_client : ℕ → Server → Option Server
add_client cfd s =
    if s.nclients == fopen_max
    then none
    else some (record s {
      clients = update s.clients s.nclients (record (s.clients s.nclients) { fd = cfd });
      nclients = s.nclients + 1;
    })

unfoldable pub rem_client : ℕ → ℕ → Server → Server
rem_client cfd i s = record s {
  files = close_fd cfd s.files;
  nclients = s.nclients - 1;
  clients = update s.clients i (s.clients (s.nclients - 1));
}

-- What a `read` of a connection does: it gives a request, or nothing, at the end of the connection or on
-- an error, or it does not return while the client sends nothing.
pub data Read : Type 0 where
  request : (msg : ℕ) → Read
  nothing : Read
  waits : Read

-- How `process` goes: `blocked` is at a read of `fd` that does not return.
pub data Outcome : Type 0 where
  finished : (s : Server) → Outcome
  blocked : (fd : ℕ) (s : Server) → Outcome
  out_of_fuel : Outcome

-- The loop of `process`, on fuel.
unfoldable pub process_clients : ℕ → (ℕ → Read) → (i nready : ℕ) → Server → Outcome
process_clients zero read i nready s = out_of_fuel
process_clients (suc fuel) read i nready s =
    let served = process_clients fuel read (i + 1) nready in
    let removed = process_clients fuel read (i + 1) (nready - 1) in
    if ltb 0 nready && ltb i s.nclients
    then (if (s.clients i).readable || (s.clients i).error
        then elim (read (s.clients i).fd) [
          | nothing ↦ removed (rem_client (s.clients i).fd i s)
          | request msg ↦ served (record s { files = process_request (s.clients i).fd msg s.files })
          | waits ↦ blocked (s.clients i).fd s
        ]
        else served s)
    else finished s

-- `accept` is the descriptor of the new connection, if any.
unfoldable pub process : ℕ → Option ℕ → (ℕ → Read) → ℕ → Server → Outcome
process fuel accept read nready s =
    if (s.clients 0).readable
    then elim accept [
      | none ↦ finished s
      | some cfd ↦
          let s = record s { files = open_fd cfd s.files } in
          elim (add_client cfd s) [
            | none ↦ finished (record s { files = close_fd cfd s.files })
            | some added ↦
                if nready - 1 == 0
                then finished added
                else process_clients fuel read 1 (nready - 1) added
          ]
    ]
    else process_clients fuel read 1 nready s
