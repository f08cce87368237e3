-- ===== src/EchoServer/FirstEpoll/Counts.antt =====
-- What nclients of the first echo server on epoll counts.
use mathlib.Core.Path.{subst}
use so_1920v_li41n.Prelude.{
  ap, ℕ, ◌+◌, ◌≡◌, refl, Bool, true, false, Option, none, some, List, [], ◌∷◌, arith, ◌==◌,
  if◌then◌else◌, has, count, length, Bool-cases, inl, inr, ◌≤◌, not, ◌&&◌, ◌||◌, count_of_has,
  has_of_count, sym,
}
use so_1920v_li41n.EchoServer.{create_bind_server_socket, process_request, open_fd}
use so_1920v_li41n.EchoServer.Epoll
use so_1920v_li41n.EchoServer.Epoll.{Event, without}
use so_1920v_li41n.EchoServer.FirstEpoll.{
  Server, close, add_client, rem_client, accept_client, read_client, process_event, process, init,
  loop,
}

-- How many of the connections that a batch accepts the epoll instance does not take.
abbrev pub refused : Event → Server → ℕ
refused e s = elim e.accept [
  | none ↦ 0
  | some cfd ↦ if e.room && not (has cfd s.interest) then 0 else 1
]

unfoldable pub refusals : List Event → Server → ℕ
refusals [] s = 0
refusals (e ∷ events) s =
    let (goes_on, s') = process_event e s in
    let rest = refusals events s' in
    (if (e.fd == s.listenfd) && e.epollin then refused e s else 0) + (if goes_on then rest else 0)

unfoldable pub all_refusals : List (List Event) → Server → ℕ
all_refusals [] s = 0
all_refusals (batch ∷ batches) s = refusals batch s + all_refusals batches (process batch s)

-- The instance holds a descriptor at most once.
abbrev Once : Server → Type 0
Once s = (a : ℕ) → count a s.interest ≤ 1

count-without :
    (a fd : ℕ) (xs : List ℕ)
    → count a (without fd xs) + (if has fd xs then (if a == fd then 1 else 0) else 0) ≡ count a xs
count-without a fd [] = ground arith
count-without a fd (x ∷ xs) = ground (arith, count-without a fd xs)

-- What `close` has taken away, rem_client does not find.
close-without : (fd : ℕ) (s : Server) → Once s → rem_client fd (close fd s) ≡ close fd s
unfolding rem_client close
close-without fd s once =
    let gone : has fd (without fd s.interest) ≡ false =
      has_of_count fd (without fd s.interest)
        (ground (arith, count-without fd fd s.interest, once fd, count_of_has fd s.interest)) in
    ground (arith, gone)

close-Once : (fd : ℕ) (s : Server) → Once s → Once (close fd s)
unfolding close
close-Once fd s once = λ a. omega (arith, once a, count-without a fd s.interest)

close-opened : (fd : ℕ) (s : Server) → (close fd s).files.opened ≡ s.files.opened
unfolding close Epoll.close
close-opened fd s = ground arith

close-nclients : (fd : ℕ) (s : Server) → (close fd s).nclients ≡ s.nclients
unfolding close
close-nclients fd s = refl

-- From one state to a later one, with `n` connections refused: nclients goes up by the descriptors that
-- were given but not refused, and never down.
abbrev Kept : (s s' : Server) (n : ℕ) → Type 0
Kept s s' n =
    (s'.nclients + n + length s.files.opened ≡ s.nclients + length s'.files.opened) × Once s'

accept_client-Kept :
    (e : Event) (o : Option ℕ) (s : Server)
    → Once s
    → Kept s (accept_client (record e { accept = o }) s).1 (refused (record e { accept = o }) s)
unfolding accept_client add_client
accept_client-Kept e none s once = (omega arith, once)
accept_client-Kept e (some cfd) s once = elim (Bool-cases (e.room && not (has cfd s.interest))) [
  | inl taken ↦
      (ground (arith, taken), λ a. ground (arith, taken, once a, count_of_has cfd s.interest))
  | inr turned ↦
      let s1 = record s { files = open_fd cfd s.files } in
      (
        ground (arith, turned, close-opened cfd s1, close-nclients cfd s1),
        λ a. ground (arith, turned, close-Once cfd s1 once a),
      )
]

read_client-Kept :
    (e : Event) (o : Option ℕ) (s : Server)
    → Once s
    → Kept s (read_client (record e { read = o }) s) 0
unfolding read_client process_request
read_client-Kept e none s once =
    let opened = ap (λ (xs : List ℕ). length xs) (close-opened e.fd s) in
    subst (λ x. Kept s x 0) (sym (close-without e.fd s once))
      (omega (arith, opened, close-nclients e.fd s), close-Once e.fd s once)
read_client-Kept e (some request) s once = (omega arith, once)

process-Kept : (es : List Event) (s : Server) → Once s → Kept s (process es s) (refusals es s)
unfolding process refusals process_event
process-Kept [] s once = (omega arith, once)
process-Kept (e ∷ es) s once = elim (Bool-cases ((e.fd == s.listenfd) && e.epollin)) [
  | inl new ↦
      let s1 = (accept_client e s).1 in
      let (n1, once1) = accept_client-Kept e e.accept s once in
      let (n2, once2) = process-Kept es s1 once1 in
      elim (Bool-cases (accept_client e s).0) [
        | inl on ↦ rw (new, on) (omega (arith, n1, n2), once2)
        | inr over ↦ rw (new, over) (omega (arith, n1), once1)
      ]
  | inr old ↦ elim (Bool-cases (e.epollin || e.epollerr)) [
    | inl ready ↦
        let (n1, once1) = read_client-Kept e e.read s once in
        let (n2, once2) = process-Kept es (read_client e s) once1 in
        rw (old, ready) (omega (arith, n1, n2), once2)
    | inr idle ↦
        let (n2, once2) = process-Kept es s once in rw (old, idle) (omega (arith, n2), once2)
  ]
]

loop-Kept :
    (batches : List (List Event)) (s : Server)
    → Once s
    → Kept s (loop batches s) (all_refusals batches s)
unfolding loop all_refusals
loop-Kept [] s once = (omega arith, once)
loop-Kept (batch ∷ batches) s once =
    let (n1, once1) = process-Kept batch s once in
    let (n2, once2) = loop-Kept batches (process batch s) once1 in (omega (arith, n1, n2), once2)

init-Once :
    (socket : Option ℕ) (bind epoll room listen : Bool) (s0 : Server) {s : Server}
    → init socket bind epoll room listen s0 ≡ (0, s)
    → Once s × (s.nclients ≡ 1) × (length s.files.opened ≡ length s0.files.opened + 1)
unfolding init create_bind_server_socket
init-Once none bind epoll room listen s0 h = absurd (ground (arith, h))
init-Once (some sfd) false epoll room listen s0 h = absurd (ground (arith, h))
init-Once (some sfd) true false room listen s0 h = absurd (ground (arith, h))
init-Once (some sfd) true true false listen s0 h = absurd (ground (arith, h))
init-Once (some sfd) true true true false s0 h = absurd (ground (arith, h))
init-Once (some sfd) true true true true s0 {s} h =
    let s1 = record s0 {
      nclients = 1;
      listenfd = sfd;
      interest = sfd ∷ [];
      files = open_fd sfd s0.files;
    } in
    let g : s1 ≡ s = ap (λ x. x.1) h in
    subst (λ x. Once x × (x.nclients ≡ 1) × (length x.files.opened ≡ length s0.files.opened + 1)) g
      (λ a. ground arith, refl, omega arith)

-- Once init has succeeded, nclients and the connections refused by the epoll instance are together
-- the descriptors given since, the listening socket and the connections that have ended included.
pub loop-nclients :
    (socket : Option ℕ) (bind epoll room listen : Bool) (batches : List (List Event)) (s0 : Server)
    {s : Server}
    → init socket bind epoll room listen s0 ≡ (0, s)
    → (loop batches s).nclients + all_refusals batches s + length s0.files.opened
      ≡ length (loop batches s).files.opened
loop-nclients socket bind epoll room listen batches s0 {s} h =
    let (once, one, opened) = init-Once socket bind epoll room listen s0 h in
    let (counts, once') = loop-Kept batches s once in omega (arith, one, opened, counts)
