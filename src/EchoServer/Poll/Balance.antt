-- ===== src/EchoServer/Poll/Balance.antt =====
-- Every connection of the `poll` server is in its table or closed, once.
use so_1920v_li41n.Prelude.{
  ℕ, zero, suc, ◌+◌, ◌-◌, ◌≤◌, ◌<◌, ◌≡◌, ◌⊎◌, refl, Bool, true, false, ◌||◌, ◌&&◌, Bool-cases,
  Option-cases, inl, inr, Option, none, some, arith, ◌==◌, ltb, if◌then◌else◌, update, count,
}
use so_1920v_li41n.EchoServer.{open_fd, process_request, create_bind_server_socket}
use so_1920v_li41n.EchoServer.Table.{table, count-table_snoc, count-table_swap}
use so_1920v_li41n.EchoServer.Poll.{
  PollFd, Server, Read, request, nothing, waits, Outcome, finished, blocked, fopen_max, init,
  add_client, rem_client, process_clients, process,
}

abbrev pub fd_of : PollFd → ℕ
fd_of p = p.fd

-- The slot 0 holds the listening socket, the table is not larger than the array, and every descriptor
-- given is in the table or closed.
pub record Balanced (s : Server) : Type 0 where
  pub listens : 0 < s.nclients
  pub fits : s.nclients ≤ fopen_max
  pub balance :
      (a : ℕ)
      → count a (table fd_of s.nclients s.clients) + count a s.files.closed ≡ count a s.files.opened

add_client-Balanced :
    (cfd : ℕ) (s : Server)
    → Balanced s
    → s.nclients < fopen_max
    → Balanced (record s {
      clients = update s.clients s.nclients (record (s.clients s.nclients) { fd = cfd });
      nclients = s.nclients + 1;
      files = open_fd cfd s.files;
    })
add_client-Balanced cfd s b room = record {
  listens = omega arith;
  fits = omega arith;
  balance = λ a. ground (
    arith,
    b.balance a,
    count-table_snoc fd_of a s.nclients s.clients (record (s.clients s.nclients) { fd = cfd }),
  );
}

rem_client-Balanced :
    (i : ℕ) (s : Server)
    → Balanced s
    → 1 ≤ i
    → i < s.nclients
    → Balanced (rem_client (s.clients i).fd i s)
unfolding rem_client
rem_client-Balanced i s b low high = record {
  listens = omega arith;
  fits = omega (arith, b.fits);
  balance = λ a. ground (arith, b.balance a, count-table_swap fd_of a s.nclients i s.clients high);
}

rem_client-nclients : (cfd i : ℕ) (s : Server) → (rem_client cfd i s).nclients ≡ s.nclients - 1
unfolding rem_client
rem_client-nclients cfd i s = refl

-- The loop ends, or waits in a read, and keeps the balance.
abbrev pub Keeps : (ℕ → Read) → Outcome → Type 0
Keeps read r =
    ((s' : Server) × (r ≡ finished s') × Balanced s')
    ⊎ ((fd : ℕ) × (s' : Server) × (r ≡ blocked fd s') × (read fd ≡ waits) × Balanced s')

Read-cases : (r : Read) → (r ≡ nothing) ⊎ (((msg : ℕ) × (r ≡ request msg)) ⊎ (r ≡ waits))
Read-cases nothing = inl refl
Read-cases (request msg) = inr (inl (msg, refl))
Read-cases waits = inr (inr refl)

process_request-Balanced :
    (cfd msg : ℕ) (s : Server)
    → Balanced s
    → Balanced (record s { files = process_request cfd msg s.files })
unfolding process_request
process_request-Balanced cfd msg s b = record {
  listens = b.listens;
  fits = b.fits;
  balance = b.balance;
}

process_clients-Keeps :
    (fuel : ℕ) (read : ℕ → Read) (i nready : ℕ) (s : Server)
    → Balanced s
    → 1 ≤ i
    → i ≤ s.nclients + 1
    → s.nclients + 1 < i + fuel
    → Keeps read (process_clients fuel read i nready s)
unfolding process_clients
process_clients-Keeps zero read i nready s b low high enough = absurd (omega arith)
process_clients-Keeps (suc fuel) read i nready s b low high enough =
    let cfd = (s.clients i).fd in
    elim (Bool-cases (ltb 0 nready && ltb i s.nclients)) [
      | inr stop ↦ inl (s, rw (stop, process_clients), b)
      | inl go ↦
          let inside : i < s.nclients = ground arith in
          elim (Bool-cases ((s.clients i).readable || (s.clients i).error)) [
            | inr quiet ↦
                rw (go, quiet, process_clients)
                  (process_clients-Keeps fuel read (i + 1) nready s b (omega arith) (omega arith)
                    (omega arith))
            | inl ready ↦ elim (Read-cases (read cfd)) [
              | inl ended ↦
                  rw (go, ready, ended, process_clients)
                    (process_clients-Keeps fuel read (i + 1) (nready - 1) (rem_client cfd i s)
                      (rem_client-Balanced i s b low inside) (omega arith)
                      (ground (arith, rem_client-nclients cfd i s))
                      (ground (arith, rem_client-nclients cfd i s)))
              | inr (inr silent) ↦
                  inr (cfd, s, rw (go, ready, silent, process_clients) refl, silent, b)
              | inr (inl (msg, got)) ↦
                  rw (go, ready, got, process_clients)
                    (process_clients-Keeps fuel read (i + 1) nready _
                      (process_request-Balanced cfd msg s b) (omega arith) (omega arith)
                      (omega arith))
            ]
          ]
    ]

-- With fuel for the slots of the table, and two, `process` ends or waits in a read of a connection that
-- does not return. It has kept every descriptor that was given either in the table or closed, as often as
-- it was given, whatever `accept` and the reads give.
pub process-Balanced :
    (accept : Option ℕ) (read : ℕ → Read) (nready : ℕ) (s : Server)
    → Balanced s
    → ((s' : Server) × (process 18 accept read nready s ≡ finished s') × Balanced s')
      ⊎ ((fd : ℕ) × (s' : Server) × (process 18 accept read nready s ≡ blocked fd s')
          × (read fd ≡ waits)
          × Balanced s')
unfolding process add_client
process-Balanced accept read nready s b = elim (Bool-cases (s.clients 0).readable) [
  | inr old ↦ rw old (
      process_clients-Keeps 18 read 1 nready s b (omega arith) (omega arith)
        (omega (arith, b.fits, b.listens)))
  | inl new ↦ elim (Option-cases accept) [
    | inl failed ↦ rw (new, failed) (inl (s, refl, b))
    | inr (cfd, given) ↦ elim (Bool-cases (s.nclients == fopen_max)) [
      | inl full ↦
          rw (new, given, full)
            (inl (
              _,
              refl,
              record {
                listens = b.listens;
                fits = b.fits;
                balance = λ a. ground (arith, b.balance a);
              },
            ))
      | inr room ↦
          let added = add_client-Balanced cfd s b (ground (arith, b.fits)) in
          rw (new, given, room)
            (elim (Bool-cases (nready - 1 == 0)) [
              | inl last ↦ rw last (inl (_, refl, added))
              | inr more ↦ rw more (
                  process_clients-Keeps 18 read 1 (nready - 1) _ added (omega arith) (omega arith)
                    (omega (arith, added.fits, added.listens)))
            ])
    ]
  ]
]

-- Every descriptor that `init` opened is closed if it fails, and is the listening socket, in the slot
-- 0, if it succeeds.
pub init-Balanced :
    (socket : Option ℕ) (bind listen : Bool) (s : Server)
    → ((a : ℕ) → count a s.files.closed ≡ count a s.files.opened)
    → let (started, s') = init socket bind listen s in
      if started then Balanced s' else ((a : ℕ) → count a s'.files.closed ≡ count a s'.files.opened)
unfolding init create_bind_server_socket table
init-Balanced none bind listen s all = all
init-Balanced (some sfd) false listen s all = λ a. ground (arith, all a)
init-Balanced (some sfd) true false s all = λ a. ground (arith, all a)
init-Balanced (some sfd) true true s all = record {
  listens = omega arith;
  fits = omega arith;
  balance = λ a. ground (arith, all a);
}
