-- ===== src/EchoServer/Pooled/Ends.antt =====
-- What the echo server on a thread pool has done when it ends.
use so_1920v_li41n.Prelude.{
  ℕ, ◌*◌, ◌+◌, ◌≤◌, ◌<◌, ◌≡◌, ◌∙◌, sym, ap, true, false, none, some, List, [], ◌∷◌, ◌++◌,
  append-nil, arith, ◌⊎◌, inl, inr, Option-cases, ltb, has, length, if◌then◌else◌, count, refl,
}
use so_1920v_li41n.EchoServer.Pooled.{
  Main, accepting, destroying, finished, Server, Turn, main, dispatches, serves, main_start,
  run_step, main_step, dispatch_connection, process_connection, step, run,
}
use so_1920v_li41n.EchoServer.Pooled.Work.{sum_lengths, run-length_served}
use so_1920v_li41n.EchoServer.Pooled.Served.{main_start-Inv, run-Inv}

module _ (messages : ℕ → List ℕ) (connections nthreads : ℕ) (s : Server) where
  process_connection-stuck :
      (k : ℕ) (xs : List ℕ)
      → s.unread k ≡ xs
      → process_connection connections nthreads k s ≡ none
      → has k s.active ≡ false
  unfolding process_connection
  process_connection-stuck k [] at h = ground (arith, h, at)
  process_connection-stuck k (x ∷ xs) at h = ground (arith, h, at)

  -- A thread of the pool that has a connection can go on.
  busy_or_idle :
      (xs : List ℕ)
      → s.active ≡ xs
      → ((k : ℕ) × (s' : Server) × (process_connection connections nthreads k s ≡ some s'))
        ⊎ (s.active ≡ [])
  busy_or_idle [] at = inr at
  busy_or_idle (k ∷ xs) at = elim (Option-cases (process_connection connections nthreads k s)) [
    | inr (s', took) ↦ inl (k, s', took)
    | inl h ↦
        let free = process_connection-stuck k (s.unread k) refl h in
        absurd (ground (arith, at, free))
  ]

  idle-queue :
      (xs : List ℕ)
      → s.queue ≡ xs
      → 0 < nthreads
      → s.active ≡ []
      → dispatch_connection connections nthreads s ≡ none
      → s.queue ≡ []
  unfolding dispatch_connection
  idle-queue [] at some_thread e h = at
  idle-queue (x ∷ xs) at some_thread e h = absurd (ground (arith, at, some_thread, e, h))

  main_step-stuck :
      (p : Main)
      → s.place ≡ p
      → s.queue ≡ []
      → s.active ≡ []
      → main_step connections nthreads s ≡ none
      → s.place ≡ finished
  unfolding main_step run_step
  main_step-stuck accepting at q a h = absurd (ground (arith, at, h))
  main_step-stuck destroying at q a h = absurd (ground (arith, at, q, a, h))
  main_step-stuck finished at q a h = at

-- What is true at the end of a run in which no thread can go on.
stuck-served :
    (messages : ℕ → List ℕ) (connections nthreads : ℕ) (ts : List Turn) {s0 s : Server}
    → 0 < nthreads
    → main_start true true messages ≡ some s0
    → run connections nthreads ts s0 ≡ some s
    → s.active ≡ []
    → dispatch_connection connections nthreads s ≡ none
    → main_step connections nthreads s ≡ none
    → (s.place ≡ finished)
      × ((k : ℕ) → count k s.closed ≡ (if ltb k connections then 1 else 0))
      × ((k : ℕ) → k < connections → s.echoed k ≡ messages k)
stuck-served messages connections nthreads ts {s0} {s} some_thread begun h active a b =
    let v =
      run-Inv messages connections nthreads ts s0
        (main_start-Inv messages connections nthreads begun) h in
    let queue = idle-queue messages connections nthreads s s.queue refl some_thread active a in
    let over = main_step-stuck messages connections nthreads s s.place refl queue active b in
    let all = v.all (λ e. absurd (ground (arith, e, over))) in
    let none_queued = λ (k : ℕ). ap (λ xs. count k xs) queue in
    let none_active = λ (k : ℕ). ap (λ xs. count k xs) active in
    let closed : (k : ℕ) → count k s.closed ≡ (if ltb k connections then 1 else 0) =
      λ k. ground (arith, v.once k, none_queued k, none_active k, all) in
    (
      over,
      closed,
      λ k lt.
          let read_out = v.ended k (ground (arith, lt, closed k)) in
          sym (append-nil (s.echoed k)) ∙ sym (ap (λ xs. s.echoed k ++ xs) read_out) ∙ v.kept k,
    )

-- With a thread in the pool, and whatever the order of its turns, a run has at most three steps for each
-- connection, one for each message, and two; and in the state that it reaches either a thread can take
-- another step, or main has ended, and each of the `connections` connections has been closed once
-- and has got back its messages, in their order.
pub run-served :
    (messages : ℕ → List ℕ) (connections nthreads : ℕ) (ts : List Turn) {s0 s : Server}
    → 0 < nthreads
    → main_start true true messages ≡ some s0
    → run connections nthreads ts s0 ≡ some s
    → (length ts ≤ 3 * connections + sum_lengths connections messages + 2)
      × (((t : Turn) × (s' : Server) × (step connections nthreads t s ≡ some s'))
          ⊎ ((s.place ≡ finished)
              × ((k : ℕ) → count k s.closed ≡ (if ltb k connections then 1 else 0))
              × ((k : ℕ) → k < connections → s.echoed k ≡ messages k)))
unfolding step
run-served messages connections nthreads ts {s0} {s} some_thread begun h = (
  run-length_served messages connections nthreads ts begun h,
  elim (busy_or_idle messages connections nthreads s s.active refl) [
    | inl (k, s', took) ↦ inl (serves k, s', took)
    | inr active ↦ elim (Option-cases (dispatch_connection connections nthreads s)) [
      | inr (s', took) ↦ inl (dispatches, s', took)
      | inl a ↦ elim (Option-cases (main_step connections nthreads s)) [
        | inr (s', took) ↦ inl (main, s', took)
        | inl b ↦ inr (stuck-served messages connections nthreads ts some_thread begun h active a b)
      ]
    ]
  ],
)
