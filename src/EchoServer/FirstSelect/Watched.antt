-- ===== src/EchoServer/FirstSelect/Watched.antt =====
-- What the first server on select watches, and the slots that it looks at.
use so_1920v_li41n.Prelude.{
  ℕ, zero, suc, ◌+◌, ◌-◌, ◌≤◌, ◌<◌, ◌≡◌, refl, true, false, ◌&&◌, Bool-cases, ap, Option-cases, inl,
  inr, Option, none, some, List, ◌∷◌, arith, ltb, leb, update, count,
}
use so_1920v_li41n.EchoServer.{open_fd, close_fd, process_request}
use so_1920v_li41n.EchoServer.FirstSelect.{
  Server, fd_setsize, Outcome, finished, larger, add_client_from, drop_client, process_clients,
}
use so_1920v_li41n.EchoServer.FirstSelect.Slots.{slot_fds, slots_fds, count-slots_update}

-- The descriptors that the server has open.
abbrev pub open_fds : Server → List ℕ
open_fds s = s.listenfd ∷ slots_fds fd_setsize s.clients

pub record Watched (s : Server) : Type 0 where
  pub once : (a : ℕ) → count a (open_fds s) ≤ 1
  pub balance : (a : ℕ) → count a (open_fds s) + count a s.files.closed ≡ count a s.files.opened
  pub watched : (a : ℕ) → s.allset a ≡ ltb 0 (count a (open_fds s))
  pub largest : (a : ℕ) → 0 < count a (open_fds s) → a ≤ s.maxclient_fd
  pub empty : (i : ℕ) → s.maxclient_idx < i → i < fd_setsize → s.clients i ≡ none
  pub inside : s.maxclient_idx < fd_setsize
  pub small : (a : ℕ) → 0 < count a (open_fds s) → a < fd_setsize
  pub counts : (s.nclients ≡ 0) × (s.maxclients ≡ fd_setsize - 4)

-- The slot that the loop of add_client takes.
abbrev pub taken_at : (i cfd : ℕ) → Server → Server
taken_at i cfd s = record s {
  clients = update s.clients i (some cfd);
  maxclient_idx = larger s.maxclient_idx i;
  maxclient_fd = larger s.maxclient_fd cfd;
}

pub add_client_from-slot :
    (left i cfd : ℕ) (s : Server) {s' : Server}
    → add_client_from left i cfd s ≡ some s'
    → (j : ℕ) × (j < i + left) × (s.clients j ≡ none) × (taken_at j cfd s ≡ s')
unfolding add_client_from
add_client_from-slot zero i cfd s h = absurd (ground (arith, h))
add_client_from-slot (suc left) i cfd s {s'} h = elim (Option-cases (s.clients i)) [
  | inl free ↦ (i, omega arith, free, ground (arith, h, free))
  | inr (fd, used) ↦
      let next : add_client_from left (i + 1) cfd s ≡ some s' = ground (arith, h, used) in
      let (j, below, free, same) = add_client_from-slot left (i + 1) cfd s next in
      (j, omega (arith, below), free, same)
]

pub added-Watched :
    (j cfd : ℕ) (s : Server)
    → Watched s
    → count cfd (open_fds s) ≡ 0
    → j < fd_setsize
    → s.clients j ≡ none
    → cfd < fd_setsize
    → Watched (record (taken_at j cfd (record s { files = open_fd cfd s.files })) {
      allset = update s.allset cfd true;
    })
added-Watched j cfd s w new below free bit =
    let slots = λ (a : ℕ). count-slots_update a fd_setsize j s.clients (some cfd) below in
    let before = ap slot_fds free in
    record {
      once = λ a. ground (arith, w.once a, slots a, free);
      balance = λ a. ground (arith, w.balance a, slots a, free);
      watched = λ a. ground (arith, w.watched a, slots a, free);
      largest = λ a h. ground (arith, w.largest a, slots a, free, h);
      empty = λ i more lt. ground (arith, w.empty i, more, lt);
      inside = ground (arith, w.inside, below);
      small = λ a h. ground (arith, w.small a, slots a, free, h, bit);
      counts = w.counts;
    }

drop_client-Watched :
    (i cfd : ℕ) (s : Server)
    → Watched s
    → i < fd_setsize
    → s.clients i ≡ some cfd
    → Watched (drop_client cfd i s)
unfolding drop_client
drop_client-Watched i cfd s w below used =
    let slots = λ (a : ℕ). count-slots_update a fd_setsize i s.clients none below in
    record {
      once = λ a. ground (arith, w.once a, slots a, used);
      balance = λ a. ground (arith, w.balance a, slots a, used);
      watched = λ a. ground (arith, w.watched a, w.once a, slots a, used);
      largest = λ a h. ground (arith, w.largest a, slots a, used, h);
      empty = λ j more lt. ground (arith, w.empty j more lt);
      inside = w.inside;
      small = λ a h. ground (arith, w.small a, slots a, used, h);
      counts = w.counts;
    }

drop_client-idx : (cfd i : ℕ) (s : Server) → (drop_client cfd i s).maxclient_idx ≡ s.maxclient_idx
unfolding drop_client
drop_client-idx cfd i s = refl

process_request-Watched :
    (cfd request : ℕ) (s : Server)
    → Watched s
    → Watched (record s { files = process_request cfd request s.files })
unfolding process_request
process_request-Watched cfd request s w = record {
  once = w.once;
  balance = w.balance;
  watched = w.watched;
  largest = w.largest;
  empty = w.empty;
  inside = w.inside;
  small = w.small;
  counts = w.counts;
}

pub full-Watched :
    (cfd : ℕ) (s : Server)
    → Watched s
    → Watched (record s { files = close_fd cfd (open_fd cfd s.files) })
full-Watched cfd s w = record {
  once = w.once;
  balance = λ a. ground (arith, w.balance a);
  watched = w.watched;
  largest = w.largest;
  empty = w.empty;
  inside = w.inside;
  small = w.small;
  counts = w.counts;
}

abbrev pub Keeps : Outcome → Type 0
Keeps r = (s' : Server) × (r ≡ finished s') × Watched s'

-- A descriptor in one of the slots is open.
count-slots_used :
    (n i cfd : ℕ) (slots : ℕ → Option ℕ)
    → i < n
    → slots i ≡ some cfd
    → 0 < count cfd (slots_fds n slots)
unfolding slots_fds
count-slots_used n i cfd slots below used =
    ground (arith, count-slots_update cfd n i slots none below, used)

used-small :
    (i cfd : ℕ) (s : Server)
    → Watched s
    → i < fd_setsize
    → s.clients i ≡ some cfd
    → leb fd_setsize cfd ≡ false
used-small i cfd s w below used =
    let taken = count-slots_used fd_setsize i cfd s.clients below used in
    let bit : cfd < fd_setsize = w.small cfd (ground (arith, taken)) in ground (arith, bit)

pub process_clients-Keeps :
    (fuel : ℕ) (read : ℕ → Option ℕ) (i nready : ℕ) (s : Server)
    → Watched s
    → s.maxclient_idx + 1 < i + fuel
    → 0 < fuel
    → Keeps (process_clients fuel read i nready s)
unfolding process_clients
process_clients-Keeps zero read i nready s w enough more = absurd (omega arith)
process_clients-Keeps (suc fuel) read i nready s w enough more =
    elim (Bool-cases (leb i s.maxclient_idx && ltb 0 nready)) [
      | inr stop ↦ (s, rw (stop, process_clients), w)
      | inl go ↦
          let below : i < fd_setsize = ground (arith, w.inside) in
          let next : s.maxclient_idx + 1 < i + 1 + fuel = omega arith in
          let left : 0 < fuel = ground arith in
          elim (Option-cases (s.clients i)) [
            | inl free ↦
                rw (go, free, process_clients)
                  (process_clients-Keeps fuel read (i + 1) nready s w next left)
            | inr (cfd, used) ↦
                let bit = used-small i cfd s w below used in
                elim (Bool-cases (s.rset cfd)) [
                  | inr quiet ↦
                      rw (go, used, bit, quiet, process_clients)
                        (process_clients-Keeps fuel read (i + 1) nready s w next left)
                  | inl ready ↦ elim (Option-cases (read cfd)) [
                    | inl ended ↦
                        rw (go, used, bit, ready, ended, process_clients)
                          (process_clients-Keeps fuel read (i + 1) (nready - 1)
                            (drop_client cfd i s) (drop_client-Watched i cfd s w below used)
                            (omega (arith, drop_client-idx cfd i s)) left)
                    | inr (request, got) ↦
                        rw (go, used, bit, ready, got, process_clients)
                          (process_clients-Keeps fuel read (i + 1) nready _
                            (process_request-Watched cfd request s w) next left)
                  ]
                ]
          ]
    ]
