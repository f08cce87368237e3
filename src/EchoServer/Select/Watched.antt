-- ===== src/EchoServer/Select/Watched.antt =====
-- What the `select` server watches are the listening socket and the connections in its table.
use so_1920v_li41n.Prelude.{
  ℕ, zero, suc, ◌+◌, ◌-◌, ◌≤◌, ◌<◌, ◌≡◌, ◌≢◌, refl, Bool, true, false, ◌&&◌, Bool-cases,
  Option-cases, inl, inr, Option, none, some, List, ◌∷◌, arith, ◌==◌, ltb, if◌then◌else◌, update,
  count,
}
use so_1920v_li41n.EchoServer.{open_fd, close_fd, process_request, create_bind_server_socket}
use so_1920v_li41n.EchoServer.Table.{table, count-table_snoc, count-table_swap, count-table_slot}
use so_1920v_li41n.EchoServer.Select.{
  Server, init, add_client, rem_client, process_clients, process, loop_start, loop_body,
}

abbrev pub itself : ℕ → ℕ
itself fd = fd

-- The descriptors that the server has open.
abbrev pub open_fds : Server → List ℕ
open_fds s = s.listenfd ∷ table itself s.nclients s.clients

pub record Watched (s : Server) : Type 0 where
  pub once : (a : ℕ) → count a (open_fds s) ≤ 1
  pub balance : (a : ℕ) → count a (open_fds s) + count a s.files.closed ≡ count a s.files.opened
  pub watched : (a : ℕ) → s.allset a ≡ ltb 0 (count a (open_fds s))
  pub largest : (a : ℕ) → 0 < count a (open_fds s) → a ≤ s.maxclient_fd
  pub fits : s.nclients ≤ s.maxclients

added-Watched :
    (cfd : ℕ) (s : Server)
    → Watched s
    → count cfd (open_fds s) ≡ 0
    → s.nclients ≢ s.maxclients
    → Watched (record s {
      clients = update s.clients s.nclients cfd;
      nclients = s.nclients + 1;
      maxclient_fd = (if ltb s.maxclient_fd cfd then cfd else s.maxclient_fd);
      files = open_fd cfd s.files;
      allset = update s.allset cfd true;
    })
added-Watched cfd s w new room = record {
  once = λ a. ground (arith, w.once a, count-table_snoc itself a s.nclients s.clients cfd);
  balance = λ a. ground (arith, w.balance a, count-table_snoc itself a s.nclients s.clients cfd);
  watched = λ a. ground (arith, w.watched a, count-table_snoc itself a s.nclients s.clients cfd);
  largest = λ a h. ground (arith, w.largest a, count-table_snoc itself a s.nclients s.clients cfd);
  fits = omega (arith, w.fits);
}

rem_client-Watched :
    (i : ℕ) (s : Server) → Watched s → i < s.nclients → Watched (rem_client (s.clients i) i s)
unfolding rem_client
rem_client-Watched i s w inside = record {
  once = λ a. ground (arith, w.once a, count-table_swap itself a s.nclients i s.clients inside);
  balance =
      λ a. ground (arith, w.balance a, count-table_swap itself a s.nclients i s.clients inside);
  watched = λ a. ground (
    arith,
    w.watched a,
    w.once a,
    count-table_swap itself a s.nclients i s.clients inside,
    count-table_slot itself a s.nclients i s.clients inside,
  );
  largest =
      λ a h. ground (arith, w.largest a, count-table_swap itself a s.nclients i s.clients inside);
  fits = omega (arith, w.fits);
}

rem_client-nclients : (cfd i : ℕ) (s : Server) → (rem_client cfd i s).nclients ≡ s.nclients - 1
unfolding rem_client
rem_client-nclients cfd i s = refl

process_request-Watched :
    (cfd request : ℕ) (s : Server)
    → Watched s
    → Watched (record s { files = process_request cfd request s.files })
unfolding process_request
process_request-Watched cfd request s w = record {
  once = w.once;
  balance = w.balance;
  watched = w.watched;
  largest = w.largest;
  fits = w.fits;
}

abbrev Keeps : Option Server → Type 0
Keeps r = (s' : Server) × (r ≡ some s') × Watched s'

process_clients-Keeps :
    (fuel : ℕ) (read : ℕ → Option ℕ) (i nready : ℕ) (s : Server)
    → Watched s
    → i ≤ s.nclients + 1
    → s.nclients + 1 < i + fuel
    → Keeps (process_clients fuel read i nready s)
unfolding process_clients
process_clients-Keeps zero read i nready s w high enough = absurd (omega arith)
process_clients-Keeps (suc fuel) read i nready s w high enough =
    let cfd = s.clients i in
    elim (Bool-cases (ltb i s.nclients && ltb 0 nready)) [
      | inr stop ↦ (s, rw (stop, process_clients), w)
      | inl go ↦
          let inside : i < s.nclients = ground arith in
          elim (Bool-cases (s.rset cfd)) [
            | inr quiet ↦
                rw (go, quiet, process_clients)
                  (process_clients-Keeps fuel read (i + 1) nready s w (omega arith) (omega arith))
            | inl ready ↦ elim (Option-cases (read cfd)) [
              | inl ended ↦
                  rw (go, ready, ended, process_clients)
                    (process_clients-Keeps fuel read (i + 1) (nready - 1) (rem_client cfd i s)
                      (rem_client-Watched i s w inside)
                      (ground (arith, rem_client-nclients cfd i s))
                      (ground (arith, rem_client-nclients cfd i s)))
              | inr (request, got) ↦
                  rw (go, ready, got, process_clients)
                    (process_clients-Keeps fuel read (i + 1) nready _
                      (process_request-Watched cfd request s w) (omega arith) (omega arith))
            ]
          ]
    ]

full-Watched :
    (cfd : ℕ) (s : Server)
    → Watched s
    → Watched (record s { files = close_fd cfd (open_fd cfd s.files) })
full-Watched cfd s w = record {
  once = w.once;
  balance = λ a. ground (arith, w.balance a);
  watched = w.watched;
  largest = w.largest;
  fits = w.fits;
}

process-Keeps :
    (fuel : ℕ) (accept : Option ℕ) (read : ℕ → Option ℕ) (nready : ℕ) (s : Server)
    → Watched s
    → ((cfd : ℕ) → accept ≡ some cfd → count cfd (open_fds s) ≡ 0)
    → s.nclients + 2 < fuel
    → Keeps (process fuel accept read nready s)
unfolding process add_client
process-Keeps fuel accept read nready s w fresh enough = elim (Bool-cases (s.rset s.listenfd)) [
  | inr old ↦ rw old (process_clients-Keeps fuel read 0 nready s w (omega arith) (omega arith))
  | inl new ↦ elim (Option-cases accept) [
    | inl failed ↦ rw (new, failed) (s, refl, w)
    | inr (cfd, given) ↦ elim (Bool-cases (s.nclients == s.maxclients)) [
      | inl full ↦ rw (new, given, full) (_, refl, full-Watched cfd s w)
      | inr room ↦
          let added = added-Watched cfd s w (fresh cfd given) (ground arith) in
          rw (new, given, room)
            (elim (Bool-cases (nready - 1 == 0)) [
              | inl last ↦ rw last (_, refl, added)
              | inr more ↦ rw more (
                  process_clients-Keeps fuel read 0 (nready - 1) _ added (omega arith)
                    (omega arith))
            ])
    ]
  ]
]

-- An iteration of `loop`, with fuel for the table and two slots more, ends. It keeps what the server
-- watches: the descriptors in `allset` are the listening socket and the connections in the table,
-- each once and none larger than `maxclient_fd`, and every other descriptor that was given is closed.
-- `accept` gives a descriptor that is not open.
pub loop_body-Watched :
    (fuel : ℕ) (ready : ℕ → Bool) (nready : ℕ) (accept : Option ℕ) (read : ℕ → Option ℕ)
    (s : Server)
    → Watched s
    → ((cfd : ℕ) → accept ≡ some cfd → count cfd (open_fds s) ≡ 0)
    → s.nclients + 2 < fuel
    → (s' : Server) × (loop_body fuel ready nready accept read s ≡ some s') × Watched s'
unfolding loop_body
loop_body-Watched fuel ready nready accept read s w fresh enough =
    process-Keeps fuel accept read nready (record s { rset = λ a. s.allset a && ready a })
      (record {
        once = w.once;
        balance = w.balance;
        watched = w.watched;
        largest = w.largest;
        fits = w.fits;
      })
      fresh enough

-- Where `init` succeeds on a process with no descriptor of its own open, the start of `loop` watches
-- the listening socket alone; where it fails, every descriptor that it was given is closed.
pub init-Watched :
    (socket : Option ℕ) (bind listen : Bool) (s : Server)
    → ((a : ℕ) → count a s.files.closed ≡ count a s.files.opened)
    → let (started, s') = init socket bind listen s in
      if started
      then Watched (loop_start s')
      else ((a : ℕ) → count a s'.files.closed ≡ count a s'.files.opened)
unfolding init create_bind_server_socket loop_start table
init-Watched none bind listen s all = all
init-Watched (some sfd) false listen s all = λ a. ground (arith, all a)
init-Watched (some sfd) true false s all = λ a. ground (arith, all a)
init-Watched (some sfd) true true s all = record {
  once = λ a. ground arith;
  balance = λ a. ground (arith, all a);
  watched = λ a. ground arith;
  largest = λ a h. ground arith;
  fits = omega arith;
}
