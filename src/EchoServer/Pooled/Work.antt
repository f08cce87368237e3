-- ===== src/EchoServer/Pooled/Work.antt =====
-- A bound on the steps of the echo server on a thread pool.
use mathlib.Core.Path.{subst}
use so_1920v_li41n.Prelude.{
  ℕ, zero, suc, ◌*◌, length-append, length-remove, ◌+◌, ◌-◌, ◌≤◌, ◌<◌, ◌≡◌, ap, true, some, List,
  [], ◌∷◌, ◌++◌, arith, ◌==◌, has, length, update, has-count, Bool-cases, Option-cases, inl, inr,
  refl,
}
use so_1920v_li41n.EchoServer.Pooled.{
  Main, accepting, destroying, finished, Server, Turn, main, dispatches, serves, main_start,
  run_step, main_step, dispatch_connection, process_connection, step, run,
}
use so_1920v_li41n.EchoServer.Pooled.Served.{Inv, main_start-Inv, step-Inv}

-- How many messages the first connections have.
abbrev pub sum_lengths : ℕ → (ℕ → List ℕ) → ℕ
sum_lengths zero f = 0
sum_lengths (suc n) f = length (f n) + sum_lengths n f

sum_lengths-above :
    (n k : ℕ) (f : ℕ → List ℕ) (xs : List ℕ)
    → n ≤ k
    → sum_lengths n (update f k xs) ≡ sum_lengths n f
sum_lengths-above zero k f xs h = refl
sum_lengths-above (suc n) k f xs h =
    ground (arith, h, sum_lengths-above n k f xs (omega (arith, h)))

sum_lengths-update :
    (n k : ℕ) (f : ℕ → List ℕ) (xs : List ℕ)
    → k < n
    → sum_lengths n (update f k xs) + length (f k) ≡ sum_lengths n f + length xs
sum_lengths-update zero k f xs h = absurd (omega (arith, h))
sum_lengths-update (suc n) k f xs h = elim (Bool-cases (k == n)) [
  | inl top ↦ ground (arith, top, sum_lengths-above n k f xs (ground (arith, top)))
  | inr below ↦ ground (arith, h, below, sum_lengths-update n k f xs (ground (arith, h, below)))
]

abbrev place_work : Main → ℕ
place_work accepting = 2
place_work destroying = 1
place_work finished = 0

module _ (messages : ℕ → List ℕ) (connections nthreads : ℕ) where
  abbrev work : Server → ℕ
  work s =
      3 * (connections - s.accepted)
      + 2 * length s.queue
      + length s.active
      + sum_lengths connections s.unread
      + place_work s.place

  module _ (s : Server) where
    main_step-work :
        (p : Main) {s' : Server}
        → s.place ≡ p
        → main_step connections nthreads s ≡ some s'
        → work s' < work s
    unfolding main_step run_step
    main_step-work accepting at h = ground (arith, at, h, length-append s.queue (s.accepted ∷ []))
    main_step-work destroying at h = ground (arith, at, h)
    main_step-work finished at h = absurd (ground (arith, at, h))

    dispatch_connection-work :
        (xs : List ℕ) {s' : Server}
        → s.queue ≡ xs
        → dispatch_connection connections nthreads s ≡ some s'
        → work s' < work s
    unfolding dispatch_connection
    dispatch_connection-work [] at h = absurd (ground (arith, at, h))
    dispatch_connection-work (k ∷ rest) at h = ground (arith, at, h)

    process_connection-work :
        (k : ℕ) (xs : List ℕ) {s' : Server}
        → s.unread k ≡ xs
        → Inv messages connections nthreads s
        → process_connection connections nthreads k s ≡ some s'
        → work s' < work s
    unfolding process_connection
    process_connection-work k [] at v h = ground (arith, at, h, length-remove k s.active)
    process_connection-work k (msg ∷ rest) {s'} at v h = elim (Bool-cases (has k s.active)) [
      | inl here ↦
          let known : k < connections =
            ground (arith, v.once k, v.bound, has-count k s.active here) in
          let s1 = record s {
            unread = update s.unread k rest;
            echoed = update s.echoed k (s.echoed k ++ msg ∷ []);
          } in
          let g : s1 ≡ s' = ground (arith, h, at, here) in
          let longer = ap (λ (xs : List ℕ). length xs) at in
          subst (λ (x : Server). work x < work s) g
            (omega (arith, longer, sum_lengths-update connections k s.unread rest known))
      | inr gone ↦ absurd (ground (arith, h, gone))
    ]

  step-work :
      (t : Turn) (s : Server) {s' : Server}
      → Inv messages connections nthreads s
      → step connections nthreads t s ≡ some s'
      → work s' < work s
  unfolding step
  step-work main s v h = main_step-work s s.place refl h
  step-work dispatches s v h = dispatch_connection-work s s.queue refl h
  step-work (serves k) s v h = process_connection-work s k (s.unread k) refl v h

  run-work :
      (ts : List Turn) (s : Server) {s' : Server}
      → Inv messages connections nthreads s
      → run connections nthreads ts s ≡ some s'
      → length ts + work s' ≤ work s
  unfolding run
  run-work [] s {s'} v h =
      let g : s ≡ s' = ground (arith, h) in omega (arith, ap (λ (x : Server). work x) g)
  run-work (t ∷ ts) s {s'} v h = elim (Option-cases (step connections nthreads t s)) [
    | inl stuck ↦ absurd (ground (arith, h, stuck))
    | inr (s1, took) ↦
        let v1 = step-Inv messages connections nthreads t s v took in
        omega
          (arith, step-work t s {s' = s1} v took, run-work ts s1 {s' = s'} v1 (rw (run, took) at h))
  ]

  pub run-length_served :
      (ts : List Turn) {s0 s : Server}
      → main_start true true messages ≡ some s0
      → run connections nthreads ts s0 ≡ some s
      → length ts ≤ 3 * connections + sum_lengths connections messages + 2
  unfolding main_start
  run-length_served ts {s0} {s} begun h =
      let bound = run-work ts s0 {s' = s} (main_start-Inv messages connections nthreads begun) h in
      let start : Server = record {
        place = accepting;
        accepted = 0;
        queue = [];
        active = [];
        closed = [];
        unread = messages;
        echoed = λ k. [];
      } in
      let g : start ≡ s0 = ground (arith, begun) in
      omega (arith, bound, ap (λ (x : Server). work x) g)
