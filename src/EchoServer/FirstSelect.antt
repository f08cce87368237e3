-- ===== src/EchoServer/FirstSelect.antt =====
-- aula-06-01/servers_tests/echo_service/echo_ipselchannel/echo_srv.c: the first echo server on
-- `select`, whose clients keep their slots. `none` in a slot is -1.
-- A negative count of ready descriptors stands as 0: `process` tests only whether it is positive.
mod Examples
pub mod Rounds
pub mod Slots
pub mod Watched
use so_1920v_li41n.Prelude.{
  ℕ, zero, suc, ◌+◌, ◌-◌, Bool, true, false, ◌||◌, ◌&&◌, Option, none, some, List, [], ◌∷◌, ◌==◌,
  ltb, leb, if◌then◌else◌, update,
}
use so_1920v_li41n.EchoServer.{
  Files, open_fd, close_fd, process_request, Bound, bound, no_socket, not_bound,
  create_bind_server_socket,
}

pub record Server : Type 0 where
  pub clients : ℕ → Option ℕ
  pub maxclient_fd : ℕ
  pub maxclient_idx : ℕ
  pub maxclients : ℕ
  pub nclients : ℕ
  pub listenfd : ℕ
  pub rset : ℕ → Bool
  pub allset : ℕ → Bool
  pub files : Files

-- FD_SETSIZE: an fd_set has a bit for each descriptor below it.
abbrev pub fd_setsize : ℕ
fd_setsize = 1024

-- A failed binding leaves a negative descriptor, on which `listen` fails and `close` does nothing.
unfoldable pub init : (socket : Option ℕ) (bind listen : Bool) → Server → Bool × Server
init socket bind listen s =
    let (listenfd, files) = create_bind_server_socket socket bind s.files in
    elim listenfd [
      | no_socket ↦ (false, record s { files = files })
      | not_bound ↦ (false, record s { files = files })
      | bound sfd ↦
          if listen
          then (
            true,
            record s {
              listenfd = sfd;
              clients = λ i. if ltb i fd_setsize then none else s.clients i;
              maxclients = fd_setsize - 4;
              maxclient_idx = 0;
              maxclient_fd = sfd;
              nclients = 0;
              files = files;
            },
          )
          else (false, record s { listenfd = sfd; files = close_fd sfd files })
    ]

abbrev pub larger : (old new : ℕ) → ℕ
larger old new = if ltb old new then new else old

-- The loop of add_client, with `left` slots to look at; `none` for -1.
unfoldable pub add_client_from : (left i cfd : ℕ) → Server → Option Server
add_client_from zero i cfd s = none
add_client_from (suc left) i cfd s =
    let rest = add_client_from left (i + 1) cfd s in
    elim (s.clients i) [
      | none ↦ some (record s {
        clients = update s.clients i (some cfd);
        maxclient_idx = larger s.maxclient_idx i;
        maxclient_fd = larger s.maxclient_fd cfd;
      })
      | some taken ↦ rest
    ]

unfoldable pub add_client : (cfd : ℕ) → Server → Option Server
add_client cfd s = add_client_from fd_setsize 0 cfd s

-- The end of a connection in the loop of `process`.
unfoldable pub drop_client : (cfd i : ℕ) → Server → Server
drop_client cfd i s = record s {
  files = close_fd cfd s.files;
  clients = update s.clients i none;
  allset = update s.allset cfd false;
}

-- How a part of the server ends: `overflow` is a use of an fd_set with a descriptor for which it has no
-- bit, which reads or writes outside it.
pub data Outcome : Type 0 where
  finished : (s : Server) → Outcome
  overflow : Outcome
  out_of_fuel : Outcome

-- The loop of `process`, on fuel. `read` gives the request read from a descriptor, if any.
unfoldable pub process_clients : ℕ → (ℕ → Option ℕ) → (i nready : ℕ) → Server → Outcome
process_clients zero read i nready s = out_of_fuel
process_clients (suc fuel) read i nready s =
    let served = process_clients fuel read (i + 1) nready in
    let removed = process_clients fuel read (i + 1) (nready - 1) in
    if leb i s.maxclient_idx && ltb 0 nready
    then elim (s.clients i) [
      | none ↦ served s
      | some cfd ↦
          if leb fd_setsize cfd
          then overflow
          else (if s.rset cfd
              then elim (read cfd) [
                | none ↦ removed (drop_client cfd i s)
                | some request ↦ served (record s { files = process_request cfd request s.files })
              ]
              else served s)
    ]
    else finished s

-- `accept` is the descriptor of the new connection, if any.
unfoldable pub process : ℕ → Option ℕ → (ℕ → Option ℕ) → ℕ → Server → Outcome
process fuel accept read nready s =
    if leb fd_setsize s.listenfd
    then overflow
    else (if s.rset s.listenfd
        then elim accept [
          | none ↦ finished s
          | some cfd ↦
              let s = record s { files = open_fd cfd s.files } in
              elim (if s.nclients == s.maxclients then none else add_client cfd s) [
                | none ↦ finished (record s { files = close_fd cfd s.files })
                | some added ↦
                    let added' = record added { allset = update added.allset cfd true } in
                    if leb fd_setsize cfd
                    then overflow
                    else (if nready - 1 == 0
                        then finished added'
                        else process_clients fuel read 0 (nready - 1) added')
              ]
        ]
        else process_clients fuel read 0 nready s)

-- `loop` up to its first iteration.
unfoldable pub loop_start : Server → Outcome
loop_start s =
    if leb fd_setsize s.listenfd
    then overflow
    else finished (record s { rset = λ a. false; allset = update (λ a. false) s.listenfd true })

-- An iteration of `loop`: `select` leaves in `rset` the descriptors of `allset` that are ready, and
-- returns their number.
unfoldable pub loop_body :
    ℕ → (ready : ℕ → Bool) (nready : ℕ) → Option ℕ → (ℕ → Option ℕ) → Server → Outcome
loop_body fuel ready nready accept read s =
    process fuel accept read nready (record s { rset = λ a. s.allset a && ready a })
