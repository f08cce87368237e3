-- ===== src/EchoServer/Epoll/Ends.antt =====
-- What is open when the loop of the echo server on epoll ends.
use so_1920v_li41n.Prelude.{
  ap, zero, suc, ℕ, ◌+◌, ◌≡◌, ◌≢◌, refl, Bool, true, false, Option, none, some, List, [], ◌∷◌,
  arith, ◌==◌, ltb, if◌then◌else◌, has, count, length, ◌∙◌, Bool-cases, Option-cases, inl, inr, ◌<◌,
  not, ◌&&◌, count_of_has, sym,
}
use mathlib.Core.Path.{subst}
use so_1920v_li41n.EchoServer.{create_bind_server_socket, Files, process_request}
use so_1920v_li41n.EchoServer.Epoll.{
  Server, Event, without, close, add_client, rem_client, accept_client, terminate, read_client,
  process_event, process, init, loop,
}

abbrev pub fds_of : Option ℕ → List ℕ
fds_of none = []
fds_of (some fd) = fd ∷ []

-- `nclients` counts what the instance holds, and a descriptor but the standard input is held, or is
-- that of the instance, as often as it was given and not closed again.
pub record Settled (s : Server) : Type 0 where
  pub counted : s.nclients ≡ length s.interest
  pub balance :
      (a : ℕ)
      → a ≢ 0
      → count a s.interest + count a (fds_of s.epoll_fd) + count a s.files.closed
        ≡ count a s.files.opened
  pub apart : has s.listenfd (fds_of s.epoll_fd) ≡ false

-- Every descriptor that was given is closed, as often as it was given, but for the standard input and for
-- that of the instance, which is open.
abbrev pub AllClosed : Server → Type 0
AllClosed s =
    (a : ℕ) → a ≢ 0 → count a (fds_of s.epoll_fd) + count a s.files.closed ≡ count a s.files.opened

-- No event names the descriptor of the instance, which does not hold itself.
unfoldable pub IsReported : Option ℕ → List Event → Type 0
IsReported epoll_fd [] = Unit
IsReported epoll_fd (e ∷ events) = (has e.fd (fds_of epoll_fd) ≡ false) × IsReported epoll_fd events

unfoldable pub AllReported : Option ℕ → List (List Event) → Type 0
AllReported epoll_fd [] = Unit
AllReported epoll_fd (batch ∷ batches) = IsReported epoll_fd batch × AllReported epoll_fd batches

count-without :
    (a fd : ℕ) (xs : List ℕ)
    → count a (without fd xs) + (if has fd xs then (if a == fd then 1 else 0) else 0) ≡ count a xs
count-without a fd [] = ground arith
count-without a fd (x ∷ xs) = ground (arith, count-without a fd xs)

length-without :
    (fd : ℕ) (xs : List ℕ) → length (without fd xs) + (if has fd xs then 1 else 0) ≡ length xs
length-without fd [] = ground arith
length-without fd (x ∷ xs) = ground (arith, length-without fd xs)

rem_client-count :
    (a fd : ℕ) (s : Server)
    → count a (rem_client fd s).interest
        + (if has fd s.interest then (if a == fd then 1 else 0) else 0)
      ≡ count a s.interest
unfolding rem_client
rem_client-count a fd s = ground (arith, count-without a fd s.interest)

rem_client-other :
    (a fd : ℕ) (s : Server) → a ≢ fd → count a (rem_client fd s).interest ≡ count a s.interest
rem_client-other a fd s ne = ground (arith, rem_client-count a fd s)

rem_client-counted :
    (fd : ℕ) (s : Server)
    → s.nclients ≡ length s.interest
    → (rem_client fd s).nclients ≡ length (rem_client fd s).interest
unfolding rem_client
rem_client-counted fd s h = ground (arith, length-without fd s.interest)

rem_client-files : (fd : ℕ) (s : Server) → (rem_client fd s).files ≡ s.files
unfolding rem_client
rem_client-files fd s = ground arith

rem_client-epoll_fd : (fd : ℕ) (s : Server) → (rem_client fd s).epoll_fd ≡ s.epoll_fd
unfolding rem_client
rem_client-epoll_fd fd s = ground arith

rem_client-listenfd : (fd : ℕ) (s : Server) → (rem_client fd s).listenfd ≡ s.listenfd
unfolding rem_client
rem_client-listenfd fd s = ground arith

close-opened : (fd : ℕ) (f : Files) → (close fd f).opened ≡ f.opened
unfolding close
close-opened fd f = ground arith

close-count :
    (a fd : ℕ) (f : Files)
    → count a (close fd f).closed
      ≡ count a f.closed
        + (if a == fd then (if ltb (count a f.closed) (count a f.opened) then 1 else 0) else 0)
unfolding close
close-count a fd f = ground arith

has-count : (a : ℕ) (xs : List ℕ) → has a xs ≡ true → 0 < count a xs
has-count a [] h = absurd (ground arith)
has-count a (x ∷ xs) h = ground (arith, has-count a xs)

-- A descriptor that leaves the instance and is closed.
closed-balance :
    (a fd : ℕ) (interest : List ℕ) (s : Server)
    → count a interest ≡ count a (rem_client fd s).interest
    → has fd (fds_of s.epoll_fd) ≡ false
    → count a s.interest + count a (fds_of s.epoll_fd) + count a s.files.closed
      ≡ count a s.files.opened
    → count a interest + count a (fds_of s.epoll_fd) + count a (close fd s.files).closed
      ≡ count a (close fd s.files).opened
closed-balance a fd interest s same other h =
    let not_it = count_of_has fd (fds_of s.epoll_fd) other in
    let removed = rem_client-count a fd s in
    let closed = close-count a fd s.files in
    elim (Bool-cases (has fd s.interest)) [
      | inl held ↦ rw (close-opened fd s.files) (ground (arith, has-count fd s.interest held))
      | inr free ↦ rw (close-opened fd s.files) (ground (arith, count_of_has fd s.interest free))
    ]

read_client-Settled :
    (e : Event) (s : Server)
    → has e.fd (fds_of s.epoll_fd) ≡ false
    → Settled s
    → Settled (read_client e s)
unfolding read_client process_request
read_client-Settled e s other w = elim (Option-cases e.read) [
  | inl ended ↦ rw ended (record {
    counted = rem_client-counted e.fd s w.counted;
    balance = λ a ne.
        rw (rem_client-files e.fd s, rem_client-epoll_fd e.fd s)
          (closed-balance a e.fd (rem_client e.fd s).interest s refl other (w.balance a ne));
    apart = rw (rem_client-listenfd e.fd s, rem_client-epoll_fd e.fd s) w.apart;
  })
  | inr (request, got) ↦
      rw got (record { counted = w.counted; balance = w.balance; apart = w.apart })
]

terminate-Settled : (s : Server) → Settled s → Settled (terminate s)
unfolding terminate
terminate-Settled s w =
    let s' = rem_client s.listenfd s in
    let same_epoll = rem_client-epoll_fd 0 s' ∙ rem_client-epoll_fd s.listenfd s in
    record {
      counted = rem_client-counted 0 s' (rem_client-counted s.listenfd s w.counted);
      balance = λ a ne.
          rw (rem_client-files 0 s' ∙ rem_client-files s.listenfd s, same_epoll)
            (closed-balance a s.listenfd (rem_client 0 s').interest s (rem_client-other a 0 s' ne)
              w.apart (w.balance a ne));
      apart = rw (rem_client-listenfd 0 s' ∙ rem_client-listenfd s.listenfd s, same_epoll) w.apart;
    }

accept_client-Settled : (e : Event) (s : Server) → Settled s → Settled (accept_client e s).1
unfolding accept_client add_client close
accept_client-Settled e s w = elim (Option-cases e.accept) [
  | inl failed ↦ rw failed w
  | inr (cfd, got) ↦ elim (Bool-cases (e.room && not (has cfd s.interest))) [
    | inl added ↦
        rw (got, added)
          (record {
            counted = ground (arith, w.counted);
            balance = λ a ne. ground (arith, w.balance a ne);
            apart = w.apart;
          })
    | inr full ↦
        rw (got, full)
          (record {
            counted = w.counted;
            balance = λ a ne. ground (arith, w.balance a ne, w.balance cfd);
            apart = w.apart;
          })
  ]
]

process_event-Settled :
    (e : Event) (s : Server)
    → has e.fd (fds_of s.epoll_fd) ≡ false
    → Settled s
    → Settled (process_event e s).1
unfolding process_event
process_event-Settled e s other w =
    let read = read_client-Settled e s other w in
    ground (arith, accept_client-Settled e s w, terminate-Settled s w, read)

process_event-epoll_fd : (e : Event) (s : Server) → (process_event e s).1.epoll_fd ≡ s.epoll_fd
unfolding process_event accept_client add_client terminate read_client rem_client
process_event-epoll_fd e s = ground arith

process-epoll_fd : (events : List Event) (s : Server) → (process events s).epoll_fd ≡ s.epoll_fd
unfolding process
process-epoll_fd [] s = refl
process-epoll_fd (e ∷ events) s =
    ground (arith, process-epoll_fd events (process_event e s).1, process_event-epoll_fd e s)

-- Whatever events are reported of other descriptors than the instance's and whatever the calls give,
-- `process` keeps `nclients` the number of descriptors that the instance holds, and every descriptor but
-- the standard input and the instance's held as often as it was given and not closed again.
pub process-Settled :
    (events : List Event) (s : Server)
    → IsReported s.epoll_fd events
    → Settled s
    → Settled (process events s)
unfolding process IsReported
process-Settled [] s d w = w
process-Settled (e ∷ events) s (other, d) w =
    let w' = process_event-Settled e s other w in
    let d' = subst (λ x. IsReported x events) (sym (process_event-epoll_fd e s)) d in
    elim (Bool-cases (process_event e s).0) [
      | inl goes_on ↦ rw goes_on (process-Settled events (process_event e s).1 d' w')
      | inr stops ↦ rw stops w'
    ]

-- Where `init` reports an error every socket that it was given is closed and the instance is not; where it does not, the
-- server is settled, and the event `line` alone ends its loop.
abbrev pub IsSetUp : Event → ℕ × Server → Type 0
IsSetUp line (zero, s) = Settled s × (loop ((line ∷ []) ∷ []) s ≡ some (terminate s))
IsSetUp line (suc code, s) = AllClosed s

-- From a state with no descriptor, each error of `init` leaves every socket closed; where it succeeds,
-- with a socket that is not descriptor 0, a line on the standard input ends the loop if nobody has
-- connected.
pub init-IsSetUp :
    (line : Event) (socket : Option ℕ) (bind : Bool) (epoll : Option ℕ)
    (room_listen room_stdin listen : Bool) (s : Server)
    → line.fd ≡ 0
    → line.epollin ≡ true
    → socket ≢ some 0
    → ((fd : ℕ) → epoll ≡ some fd → socket ≢ some fd)
    → s.epoll_fd ≡ none
    → s.files.opened ≡ []
    → s.files.closed ≡ []
    → IsSetUp line (init socket bind epoll room_listen room_stdin listen s)
unfolding init add_client close create_bind_server_socket loop process process_event terminate
    rem_client
init-IsSetUp e none bind epoll rl rs listen s z i n d g o c = λ a ne. rw (g, o, c) refl
init-IsSetUp e (some sfd) false epoll rl rs listen s z i n d g o c = λ a ne. ground (arith, g, o, c)
init-IsSetUp e (some sfd) true none rl rs listen s z i n d g o c = λ a ne. ground (arith, g, o, c)
init-IsSetUp e (some sfd) true (some fd) false rs listen s z i n d g o c =
    λ a ne. ground (arith, d fd refl, o, c)
init-IsSetUp e (some sfd) true (some fd) true false listen s z i n d g o c =
    λ a ne. ground (arith, d fd refl, o, c)
init-IsSetUp e (some zero) true (some fd) true true listen s z i n d g o c = absurd (n refl)
init-IsSetUp e (some (suc x)) true (some fd) true true false s z i n d g o c =
    let away : has 0 (suc x ∷ []) ≡ false = ground arith in
    rw away λ a ne. ground (arith, d fd refl, o, c)
init-IsSetUp e (some (suc x)) true (some fd) true true true s z i n d g o c =
    let away : has 0 (suc x ∷ []) ≡ false = ground arith in
    rw away (
      record {
        counted = refl;
        balance = λ a ne. ground (arith, o, c);
        apart = ground (arith, d fd refl);
      },
      ground (arith, z, i),
    )

length-zero : (xs : List ℕ) → length xs ≡ 0 → xs ≡ []
length-zero [] h = refl
length-zero (x ∷ xs) h = absurd (omega arith)

ended-AllClosed : (s s' : Server) → Settled s → (s.nclients == 0) ≡ true → s ≡ s' → AllClosed s'
ended-AllClosed s s' w h e = subst AllClosed e (λ a ne.
    let none_held = length-zero s.interest (ground (arith, w.counted)) in
    omega (arith, ap (count a) none_held, w.balance a ne))

-- On events that do not name the instance's descriptor, when the loop ends, every descriptor that the
-- server was given is closed, as often as it was given, but for the standard input and for the
-- descriptor of the epoll instance, which is still open.
pub loop-AllClosed :
    (batches : List (List Event)) {s : Server} {s' : Server}
    → Settled s
    → AllReported s.epoll_fd batches
    → loop batches s ≡ some s'
    → (s'.epoll_fd ≡ s.epoll_fd) × AllClosed s'
unfolding loop AllReported
loop-AllClosed [] {s} {s'} w d h = elim (Bool-cases (s.nclients == 0)) [
  | inl ended ↦
      let g : s ≡ s' = ground (arith, h) in
      (ap (λ (x : Server). x.epoll_fd) (sym g), ended-AllClosed s s' w ended g)
  | inr waits ↦ absurd (ground arith)
]
loop-AllClosed (batch ∷ batches) {s} {s'} w (d, ds) h = elim (Bool-cases (s.nclients == 0)) [
  | inl ended ↦
      let g : s ≡ s' = ground (arith, h) in
      (ap (λ (x : Server). x.epoll_fd) (sym g), ended-AllClosed s s' w ended g)
  | inr goes_on ↦
      let same = process-epoll_fd batch s in
      let (kept, closed) =
        loop-AllClosed batches {s = process batch s} {s' = s'} (process-Settled batch s d w)
          (subst (λ x. AllReported x batches) (sym same) ds) (ground (arith, h)) in
      (kept ∙ same, closed)
]
