-- ===== src/EchoServer/FirstSelect/Rounds.antt =====
-- The iterations of the loop of the first server on select.
use mathlib.Core.Path.{subst}
use so_1920v_li41n.Prelude.{
  ℕ, zero, suc, ◌+◌, ◌-◌, ◌≤◌, ◌<◌, ◌≡◌, refl, Bool, true, false, ◌&&◌, Bool-cases, ap,
  Option-cases, inl, inr, Option, none, some, arith, ◌==◌, ltb, leb, ◌⊎◌, if◌then◌else◌, update,
  count,
}
use so_1920v_li41n.EchoServer.{open_fd, create_bind_server_socket}
use so_1920v_li41n.EchoServer.FirstSelect.{
  Server, Outcome, finished, overflow, fd_setsize, init, add_client_from, add_client, process,
  loop_start, loop_body,
}
use so_1920v_li41n.EchoServer.FirstSelect.Slots.{slots_fds-none}
use so_1920v_li41n.EchoServer.FirstSelect.Watched.{
  Watched, open_fds, taken_at, add_client_from-slot, added-Watched, full-Watched, Keeps,
  process_clients-Keeps,
}

-- A new connection has a slot, or every slot is taken.
add_client-slot :
    (cfd : ℕ) (s : Server) {s' : Server}
    → add_client cfd s ≡ some s'
    → (j : ℕ) × (j < fd_setsize) × (s.clients j ≡ none) × (taken_at j cfd s ≡ s')
unfolding add_client
add_client-slot cfd s h = add_client_from-slot fd_setsize 0 cfd s h

listenfd-small : (s : Server) → Watched s → leb fd_setsize s.listenfd ≡ false
listenfd-small s w =
    let bit : s.listenfd < fd_setsize = w.small s.listenfd (ground arith) in ground (arith, bit)

-- The descriptor that `accept` gives has no bit in an fd_set, and is used with one.
abbrev pub Overflows : Option ℕ → Outcome → Type 0
Overflows accept r = (cfd : ℕ) × (accept ≡ some cfd) × (fd_setsize ≤ cfd) × (r ≡ overflow)

process-Keeps :
    (fuel : ℕ) (accept : Option ℕ) (read : ℕ → Option ℕ) (nready : ℕ) (s : Server)
    → Watched s
    → ((cfd : ℕ) → accept ≡ some cfd → count cfd (open_fds s) ≡ 0)
    → fd_setsize < fuel
    → Keeps (process fuel accept read nready s)
      ⊎ Overflows accept (process fuel accept read nready s)
unfolding process
process-Keeps fuel accept read nready s w fresh enough =
    let bit : leb fd_setsize s.listenfd ≡ false = listenfd-small s w in
    elim (Bool-cases (s.rset s.listenfd)) [
      | inr old ↦
          rw (bit, old)
            (inl (
              process_clients-Keeps fuel read 0 nready s w (omega (arith, w.inside)) (omega arith)))
      | inl new ↦ elim (Option-cases accept) [
        | inl failed ↦ rw (bit, new, failed) (inl (s, refl, w))
        | inr (cfd, given) ↦
            let s1 = record s { files = open_fd cfd s.files } in
            let counted : (s.nclients == s.maxclients) ≡ false = ground (arith, w.counts) in
            elim (Option-cases (add_client cfd s1)) [
              | inl full ↦ rw (bit, new, given, counted, full) (inl (_, refl, full-Watched cfd s w))
              | inr (added, room) ↦
                  let (j, below, free, same) = add_client-slot cfd s1 room in
                  let added' = record added { allset = update added.allset cfd true } in
                  elim (Bool-cases (leb fd_setsize cfd)) [
                    | inl large ↦
                        rw (bit, new, given, counted, room, large)
                          (inr (cfd, refl, ground (arith, large), refl))
                    | inr fits ↦
                        let kept : Watched added' =
                          subst
                            (λ (x : Server).
                              Watched (record x { allset = update x.allset cfd true }))
                            same
                            (added-Watched j cfd s w (fresh cfd given) below free
                              (ground (arith, fits))) in
                        rw (bit, new, given, counted, room, fits)
                          (inl (elim (Bool-cases (nready - 1 == 0)) [
                            | inl last ↦ rw last (added', refl, kept)
                            | inr more ↦ rw more (
                                process_clients-Keeps fuel read 0 (nready - 1) added' kept
                                  (omega (arith, kept.inside)) (omega arith))
                          ]))
                  ]
            ]
      ]
    ]

-- Where `accept` gives a descriptor that is not open, an iteration of `loop`, with more fuel than there
-- are slots, ends in one of two ways. Either it keeps what the server watches: the descriptors in `allset`
-- are the listening socket and those in the slots, each once, none larger than `maxclient_fd`, and all below
-- FD_SETSIZE; every other descriptor that was given is closed; and the slots up to `maxclient_idx`, those
-- that it looks at, lie in the array and hold every client. Or it uses `allset` with the new
-- descriptor, which is not below FD_SETSIZE.
pub loop_body-Watched_slots :
    (fuel : ℕ) (ready : ℕ → Bool) (nready : ℕ) (accept : Option ℕ) (read : ℕ → Option ℕ)
    (s : Server)
    → Watched s
    → ((cfd : ℕ) → accept ≡ some cfd → count cfd (open_fds s) ≡ 0)
    → fd_setsize < fuel
    → ((s' : Server) × (loop_body fuel ready nready accept read s ≡ finished s') × Watched s')
      ⊎ ((cfd : ℕ) × (accept ≡ some cfd)
          × (fd_setsize ≤ cfd)
          × (loop_body fuel ready nready accept read s ≡ overflow))
unfolding loop_body
loop_body-Watched_slots fuel ready nready accept read s w fresh enough =
    process-Keeps fuel accept read nready (record s { rset = λ a. s.allset a && ready a })
      (record {
        once = w.once;
        balance = w.balance;
        watched = w.watched;
        largest = w.largest;
        empty = w.empty;
        inside = w.inside;
        small = w.small;
        counts = w.counts;
      })
      fresh enough

-- Where `init` succeeds on a process with no descriptor of its own open, with a socket below FD_SETSIZE,
-- the start of `loop` watches the listening socket alone; where it fails, every descriptor that it was given is closed.
init-Watched :
    (socket : Option ℕ) (bind listen : Bool) (s : Server)
    → ((sfd : ℕ) → socket ≡ some sfd → sfd < fd_setsize)
    → ((a : ℕ) → count a s.files.closed ≡ count a s.files.opened)
    → let (started, s') = init socket bind listen s in
      if started
      then Keeps (loop_start s')
      else ((a : ℕ) → count a s'.files.closed ≡ count a s'.files.opened)
unfolding init create_bind_server_socket loop_start
init-Watched none bind listen s bits all = all
init-Watched (some sfd) false listen s bits all = λ a. ground (arith, all a)
init-Watched (some sfd) true false s bits all = λ a. ground (arith, all a)
init-Watched (some sfd) true true s bits all =
    let vacant : (i : ℕ)
        → i < fd_setsize
        → (if ltb i fd_setsize then none else s.clients i) ≡ none =
      λ i lt. ground (arith, lt) in
    let no_fds =
      slots_fds-none fd_setsize (λ i. if ltb i fd_setsize then none else s.clients i) vacant in
    let fds = λ (a : ℕ). ap (λ xs. count a xs) no_fds in
    let bit : leb fd_setsize sfd ≡ false = ground (arith, bits sfd refl) in
    rw bit (
      _,
      refl,
      record {
        once = λ a. ground (arith, fds a);
        balance = λ a. ground (arith, all a, fds a);
        watched = λ a. ground (arith, fds a);
        largest = λ a h. ground (arith, fds a);
        empty = λ i more lt. vacant i lt;
        inside = omega arith;
        small = λ a h. ground (arith, fds a, h, bits sfd refl);
        counts = (refl, refl);
      },
    )

add_client_from-some :
    (left i cfd j : ℕ) (s : Server)
    → i ≤ j
    → j < i + left
    → s.clients j ≡ none
    → (s' : Server) × (add_client_from left i cfd s ≡ some s')
unfolding add_client_from
add_client_from-some zero i cfd j s low high free = absurd (omega (arith, low, high))
add_client_from-some (suc left) i cfd j s low high free = elim (Option-cases (s.clients i)) [
  | inl here ↦ (taken_at i cfd s, rw (here, add_client_from) refl)
  | inr (fd, used) ↦
      let later : i + 1 ≤ j = ground (arith, low, used, free) in
      let (s', found) =
        add_client_from-some left (i + 1) cfd j s later (omega (arith, high)) free in
      (s', rw (used, add_client_from) found)
]

-- In a state of the invariant whose listening socket is ready, with a free slot, `process` uses `allset`
-- with the new descriptor when that is not below FD_SETSIZE, however many clients there are: the limit on
-- them refuses none.
pub process-overflows :
    (fuel : ℕ) (read : ℕ → Option ℕ) (nready cfd j : ℕ) (s : Server)
    → Watched s
    → s.rset s.listenfd ≡ true
    → j < fd_setsize
    → s.clients j ≡ none
    → fd_setsize ≤ cfd
    → process fuel (some cfd) read nready s ≡ overflow
unfolding process add_client
process-overflows fuel read nready cfd j s w new below free large =
    let s1 = record s { files = open_fd cfd s.files } in
    let bit = listenfd-small s w in
    let counted : (s.nclients == s.maxclients) ≡ false = ground (arith, w.counts) in
    let beyond : leb fd_setsize cfd ≡ true = ground (arith, large) in
    let (added, room) = add_client_from-some fd_setsize 0 cfd j s1 (omega arith) below free in
    rw (bit, new, counted, room, beyond) refl
