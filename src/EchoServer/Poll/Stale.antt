-- ===== src/EchoServer/Poll/Stale.antt =====
-- A slot that a client leaves keeps its `revents`, which the next client of the slot inherits.
use so_1920v_li41n.Prelude.{ℕ, suc, ◌+◌, ◌≡◌, ◌∙◌, refl, ltb, ◌&&◌, update, true, some, ◌∷◌}
use so_1920v_li41n.EchoServer.{Files, open_fd, process_request}
use so_1920v_li41n.EchoServer.Poll.{
  PollFd, Server, Read, request, waits, blocked, add_client, process_clients, process,
}

-- A server with the listening socket and one client.
abbrev pub one_client : (ℕ → PollFd) → ℕ → Files → Server
one_client clients listenfd files = record {
  clients = clients;
  nclients = 2;
  listenfd = listenfd;
  files = files;
}

module _ (fuel : ℕ) (read : ℕ → Read) (i nready : ℕ) (s : Server)
    (ready : (ltb 0 nready && ltb i s.nclients) ≡ true)
    (readable : (s.clients i).readable ≡ true) where
  served :
      (msg : ℕ)
      → read (s.clients i).fd ≡ request msg
      → process_clients (suc fuel) read i nready s
        ≡ process_clients fuel read
            (i + 1)
            nready
            (record s { files = process_request (s.clients i).fd msg s.files })
  unfolding process_clients
  served msg got = rw (ready, readable, got, process_clients)

  held_up :
      read (s.clients i).fd ≡ waits
      → process_clients (suc fuel) read i nready s ≡ blocked (s.clients i).fd s
  unfolding process_clients
  held_up silent = rw (ready, readable, silent, process_clients)

-- With one client, if the listening socket and the client are ready and the next slot has the
-- `revents` of an earlier client, `process` accepts a connection and, behind the answer to the client's
-- request, reads it at once, though `poll` has not reported it: while the new connection sends nothing,
-- the server is blocked, with every connection open.
pub process-blocked :
    (cfd msg : ℕ) (read : ℕ → Read) (clients : ℕ → PollFd) (listenfd : ℕ) (files : Files)
    → (clients 0).readable ≡ true
    → (clients 1).readable ≡ true
    → (clients 2).readable ≡ true
    → read (clients 1).fd ≡ request msg
    → read cfd ≡ waits
    → (s' : Server) × (process 18 (some cfd) read 2 (one_client clients listenfd files)
        ≡ blocked cfd s')
      × (s'.files.echoed ≡ ((clients 1).fd, msg) ∷ files.echoed)
      × (s'.files.closed ≡ files.closed)
      × (s'.nclients ≡ 3)
unfolding process add_client process_request
process-blocked cfd msg read clients listenfd files r0 r1 r2 got silent =
    let slot = record (clients 2) { fd = cfd } in
    let before : Server = record {
      clients = update clients 2 slot;
      nclients = 3;
      listenfd = listenfd;
      files = open_fd cfd files;
    } in
    let answered = record before { files = process_request (clients 1).fd msg before.files } in
    (
      answered,
      rw r0
          (served 17 read 1 1 before refl r1 msg got ∙ held_up 16 read 2 1 answered refl r2 silent),
      refl,
      refl,
      refl,
    )
