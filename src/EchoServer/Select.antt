-- ===== src/EchoServer/Select.antt =====
-- aula-06-03/servers_tests/echo_service/echo_ip_selchannel/echo_srv.c: the server on `select`.
-- A negative count of ready descriptors stands as 0: `process` tests only whether it is positive.
mod Examples
pub mod Watched
use so_1920v_li41n.Prelude.{
  ℕ, zero, suc, ◌+◌, ◌-◌, Bool, true, false, ◌||◌, ◌&&◌, Option, none, some, List, [], ◌∷◌, ◌==◌,
  ltb, if◌then◌else◌, update,
}
use so_1920v_li41n.EchoServer.{
  Files, open_fd, close_fd, process_request, Bound, bound, no_socket, not_bound,
  create_bind_server_socket,
}

pub record Server : Type 0 where
  pub clients : ℕ → ℕ
  pub maxclient_fd : ℕ
  pub maxclients : ℕ
  pub nclients : ℕ
  pub listenfd : ℕ
  pub rset : ℕ → Bool
  pub allset : ℕ → Bool
  pub files : Files

-- FD_SETSIZE
abbrev pub fd_setsize : ℕ
fd_setsize = 1024

-- A failed binding leaves a negative descriptor, on which `listen` fails and `close` does nothing.
unfoldable pub init : (socket : Option ℕ) (bind listen : Bool) → Server → Bool × Server
init socket bind listen s =
    let (listenfd, files) = create_bind_server_socket socket bind s.files in
    elim listenfd [
      | no_socket ↦ (false, record s { files = files })
      | not_bound ↦ (false, record s { files = files })
      | bound sfd ↦
          if listen
          then (
            true,
            record s {
              listenfd = sfd;
              maxclients = fd_setsize - 4;
              maxclient_fd = sfd;
              nclients = 0;
              files = files;
            },
          )
          else (false, record s { listenfd = sfd; files = close_fd sfd files })
    ]

-- `none` for -1.
unfoldable pub add_client : ℕ → Server → Option Server
add_client cfd s =
    if s.nclients == s.maxclients
    then none
    else some (record s {
      clients = update s.clients s.nclients cfd;
      nclients = s.nclients + 1;
      maxclient_fd = (if ltb s.maxclient_fd cfd then cfd else s.maxclient_fd);
    })

unfoldable pub rem_client : ℕ → ℕ → Server → Server
rem_client cfd i s = record s {
  files = close_fd cfd s.files;
  nclients = s.nclients - 1;
  clients = update s.clients i (s.clients (s.nclients - 1));
  allset = update s.allset cfd false;
}

-- The loop of `process`, on fuel. `read` gives the request read from a descriptor, if any. No slot
-- holds -1.
unfoldable pub process_clients : ℕ → (ℕ → Option ℕ) → (i nready : ℕ) → Server → Option Server
process_clients zero read i nready s = none
process_clients (suc fuel) read i nready s =
    let served = process_clients fuel read (i + 1) nready in
    let removed = process_clients fuel read (i + 1) (nready - 1) in
    if ltb i s.nclients && ltb 0 nready
    then (if s.rset (s.clients i)
        then elim (read (s.clients i)) [
          | none ↦ removed (rem_client (s.clients i) i s)
          | some request ↦
              served (record s { files = process_request (s.clients i) request s.files })
        ]
        else served s)
    else some s

-- `accept` is the descriptor of the new connection, if any.
unfoldable pub process : ℕ → Option ℕ → (ℕ → Option ℕ) → ℕ → Server → Option Server
process fuel accept read nready s =
    if s.rset s.listenfd
    then elim accept [
      | none ↦ some s
      | some cfd ↦
          let s = record s { files = open_fd cfd s.files } in
          elim (if s.nclients == s.maxclients then none else add_client cfd s) [
            | none ↦ some (record s { files = close_fd cfd s.files })
            | some added ↦
                let added = record added { allset = update added.allset cfd true } in
                if nready - 1 == 0
                then some added
                else process_clients fuel read 0 (nready - 1) added
          ]
    ]
    else process_clients fuel read 0 nready s

-- `loop` up to its first iteration.
unfoldable pub loop_start : Server → Server
loop_start s = record s { rset = λ a. false; allset = update (λ a. false) s.listenfd true }

-- An iteration of `loop`: `select` leaves in `rset` the descriptors of `allset` that are ready, and
-- returns their number.
unfoldable pub loop_body :
    ℕ → (ready : ℕ → Bool) (nready : ℕ) → Option ℕ → (ℕ → Option ℕ) → Server → Option Server
loop_body fuel ready nready accept read s =
    process fuel accept read nready (record s { rset = λ a. s.allset a && ready a })
