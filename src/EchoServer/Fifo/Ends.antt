-- ===== src/EchoServer/Fifo/Ends.antt =====
-- What the clients have when they and the server have ended their work.
use mathlib.Core.Path.{subst}
use so_1920v_li41n.Prelude.{
  ℕ, ◌*◌, length, ◌+◌, ◌≤◌, ◌<◌, ◌≡◌, ◌∙◌, refl, sym, ap, true, Option, none, some, List, [], ◌∷◌,
  ◌++◌, arith, ◌⊎◌, zero, suc, ◌==◌, ltb, update, ==-self, Bool-cases, Option-cases, inl, inr,
}
use so_1920v_li41n.EchoServer.Fifo.{
  Client, starting, writing, reading, ended, System, new_system, open_client_fifo, run_step,
  next_try, client_step, step, run,
}
use so_1920v_li41n.EchoServer.Fifo.Answers.{
  sent, at_client, tries, Inv, new_system-Inv, start-Inv, write-Inv, read-Inv, answer-Inv,
}
use so_1920v_li41n.EchoServer.Fifo.Work.{run-work, new_system-work}

module _ (nclients niters : ℕ) where
  run_step-Inv :
      (s : System) (xs : List (ℕ × ℕ)) {s' : System}
      → s.requests ≡ xs
      → Inv niters s
      → run_step s ≡ some s'
      → Inv niters s'
  unfolding run_step open_client_fifo
  run_step-Inv s [] at v h = absurd (ground (arith, at, h))
  run_step-Inv s ((sender, try) ∷ rest) {s'} at v h =
      let (found, v1) = answer-Inv niters s sender try rest at v in
      let s1 = record s {
        requests = rest;
        responses = update s.responses sender (s.responses sender ++ try ∷ []);
      } in
      let g : s1 ≡ s' = ground (arith, h, at, v.up, found) in subst (Inv niters) g v1

  client_step-Inv :
      (pid : ℕ) (s : System) (c : Client) (xs : List ℕ) {s' : System}
      → s.client pid ≡ c
      → s.responses pid ≡ xs
      → Inv niters s
      → client_step nclients niters pid s ≡ some s'
      → Inv niters s'
  unfolding client_step
  client_step-Inv pid s starting xs {s'} at box v h =
      let s1 = record s { client = update s.client pid (next_try niters 0) } in
      let g : s1 ≡ s' = ground (arith, at, h) in subst (Inv niters) g (start-Inv niters s pid at v)
  client_step-Inv pid s (writing try) xs {s'} at box v h =
      let s1 = record s {
        requests = s.requests ++ (pid, try) ∷ [];
        client = update s.client pid (reading try);
      } in
      let g : s1 ≡ s' = ground (arith, at, h) in
      subst (Inv niters) g (write-Inv niters s pid try at v)
  client_step-Inv pid s (reading try) [] at box v h = absurd (ground (arith, at, box, h))
  client_step-Inv pid s (reading try) (resp ∷ rest) {s'} at box v h =
      let s1 = record s {
        responses = update s.responses pid rest;
        got = update s.got pid (s.got pid ++ resp ∷ []);
        client = update s.client pid (next_try niters try);
      } in
      let g : s1 ≡ s' = ground (arith, at, box, h) in
      subst (Inv niters) g (read-Inv niters s pid try resp rest at box v)
  client_step-Inv pid s ended xs at box v h = absurd (ground (arith, at, h))

  step-Inv :
      (t : Option ℕ) (s : System) {s' : System}
      → Inv niters s
      → step nclients niters t s ≡ some s'
      → Inv niters s'
  unfolding step
  step-Inv none s v h = run_step-Inv s s.requests refl v h
  step-Inv (some pid) s {s'} v h = elim (Bool-cases (ltb pid nclients)) [
    | inl inside ↦
        let went : client_step nclients niters pid s ≡ some s' = ground (arith, h, inside) in
        client_step-Inv pid s (s.client pid) (s.responses pid) refl refl v went
    | inr outside ↦ absurd (ground (arith, h, outside))
  ]

  run-Inv :
      (ts : List (Option ℕ)) (s : System) {s' : System}
      → Inv niters s
      → run nclients niters ts s ≡ some s'
      → Inv niters s'
  unfolding run
  run-Inv [] s {s'} v h = let g : s ≡ s' = ground (arith, h) in subst (Inv niters) g v
  run-Inv (t ∷ ts) s v h = elim (Option-cases (step nclients niters t s)) [
    | inl stuck ↦ absurd (ground (arith, h, stuck))
    | inr (s1, took) ↦ run-Inv ts s1 (step-Inv t s v took) (rw (run, took) at h)
  ]

  run_step-stuck :
      (s : System) (xs : List (ℕ × ℕ))
      → s.requests ≡ xs
      → Inv niters s
      → run_step s ≡ none
      → s.requests ≡ []
  unfolding run_step open_client_fifo
  run_step-stuck s [] at v h = at
  run_step-stuck s ((sender, try) ∷ rest) at v h =
      let (found, v1) = answer-Inv niters s sender try rest at v in
      absurd (ground (arith, h, at, v.up, found))

  client_step-stuck :
      (pid : ℕ) (s : System) (c : Client)
      → s.client pid ≡ c
      → Inv niters s
      → s.requests ≡ []
      → client_step nclients niters pid s ≡ none
      → (c ≡ ended) × (s.got pid ≡ tries niters)
  unfolding client_step
  client_step-stuck pid s starting at v none_sent h = absurd (ground (arith, at, h))
  client_step-stuck pid s (writing try) at v none_sent h = absurd (ground (arith, at, h))
  client_step-stuck pid s (reading try) at v none_sent h =
      let (one_way, more) = at_client niters s pid pid (==-self pid) at v in
      let box : s.responses pid ≡ try ∷ [] =
        sym (ap (λ xs. sent pid xs ++ s.responses pid) none_sent) ∙ one_way in
      absurd (ground (arith, at, box, h))
  client_step-stuck pid s ended at v none_sent h =
      let (none_way, had) = at_client niters s pid pid (==-self pid) at v in (refl, had)

-- Some client can go on, or the first `n` have ended.
clients_go_or_ended :
    (nclients niters n : ℕ) (s : System)
    → n ≤ nclients
    → Inv niters s
    → s.requests ≡ []
    → ((k : ℕ) × (s' : System) × (step nclients niters (some k) s ≡ some s'))
      ⊎ ((k : ℕ) → k < n → (s.client k ≡ ended) × (s.got k ≡ tries niters))
unfolding step
clients_go_or_ended nclients niters zero s le v q = inr (λ k lt. absurd (omega (arith, lt)))
clients_go_or_ended nclients niters (suc n) s le v q =
    let inside : ltb n nclients ≡ true = ground (arith, le) in
    elim (Option-cases (client_step nclients niters n s)) [
      | inr (s', took) ↦
          let went : step nclients niters (some n) s ≡ some s' = ground (arith, inside, took) in
          inl (n, s', went)
      | inl quiet ↦
          let this = client_step-stuck nclients niters n s (s.client n) refl v q quiet in
          elim (clients_go_or_ended nclients niters n s (omega (arith, le)) v q) [
            | inl other ↦ inl other
            | inr before ↦ inr (λ k lt. elim (Bool-cases (k == n)) [
              | inl same ↦
                  subst (λ k. (s.client k ≡ ended) × (s.got k ≡ tries niters))
                    (ground (arith, same)) this
              | inr other ↦ before k (ground (arith, lt, other))
            ])
          ]
    ]

-- Whatever the order of its turns, a run of the clients and the server has at most three steps for each
-- try of a client, and one for each client. In the state that it reaches the server has found the
-- FIFO of every client that it answered, and is still in its loop; and either a process can take another
-- step, or every client has ended with the answers to all its tries, in their order.
pub run-answered :
    (nclients niters : ℕ) (ts : List (Option ℕ)) {s : System}
    → run nclients niters ts new_system ≡ some s
    → (length ts ≤ nclients * (3 * niters + 1))
      × (s.up ≡ true)
      × (((t : Option ℕ) × (s' : System) × (step nclients niters t s ≡ some s'))
          ⊎ ((k : ℕ) → k < nclients → (s.client k ≡ ended) × (s.got k ≡ tries niters)))
unfolding step new_system
run-answered nclients niters ts {s} h =
    let v = run-Inv nclients niters ts new_system (new_system-Inv niters) h in
    (
      omega (
        arith,
        run-work nclients niters ts new_system {s' = s} h,
        new_system-work nclients niters nclients,
      ),
      v.up,
      elim (Option-cases (run_step s)) [
        | inr (s', took) ↦ inl (none, s', took)
        | inl quiet ↦
            let none_sent = run_step-stuck nclients niters s s.requests refl v quiet in
            elim (clients_go_or_ended nclients niters nclients s (omega arith) v none_sent) [
              | inl (k, s', took) ↦ inl (some k, s', took)
              | inr all ↦ inr all
            ]
      ],
    )
