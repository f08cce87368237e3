-- ===== src/EchoServer/Fifo/Work.antt =====
-- A bound on the steps of the clients and the server.
use Prim.Native.Nat.mul
use mathlib.Core.Path.{subst}
use so_1920v_li41n.Prelude.{
  ℕ, ◌*◌, length, length-append, zero, suc, ◌+◌, ◌-◌, ◌≤◌, ◌<◌, ◌≡◌, ◌∙◌, refl, sym, ap, Option,
  none, some, List, [], ◌∷◌, ◌++◌, arith, ◌==◌, ltb, update, Bool-cases, Option-cases, inl, inr,
}
use so_1920v_li41n.EchoServer.Fifo.{
  Client, starting, writing, reading, ended, System, run_step, next_try, client_step, step, run,
}

-- The steps that a client has still to go, the answers to it included.
abbrev pub left_of : ℕ → Client → ℕ
left_of niters starting = 3 * niters + 1
left_of niters (writing try) = 3 * (niters - try) + 3
left_of niters (reading try) = 3 * (niters - try) + 1
left_of niters ended = 0

abbrev pub left : ℕ → ℕ → (ℕ → Client) → ℕ
left niters zero f = 0
left niters (suc n) f = left_of niters (f n) + left niters n f

left-above :
    (niters n k : ℕ) (f : ℕ → Client) (c : Client)
    → n ≤ k
    → left niters n (update f k c) ≡ left niters n f
left-above niters zero k f c h = refl
left-above niters (suc n) k f c h = ground (arith, h, left-above niters n k f c (omega (arith, h)))

left-update :
    (niters n k : ℕ) (f : ℕ → Client) (c : Client)
    → k < n
    → left niters n (update f k c) + left_of niters (f k) ≡ left niters n f + left_of niters c
left-update niters zero k f c h = absurd (omega (arith, h))
left-update niters (suc n) k f c h = elim (Bool-cases (k == n)) [
  | inl top ↦
      let e : k ≡ n = ground (arith, top) in
      ground
        (arith, top, left-above niters n k f c (omega (arith, e)), ap (λ x. left_of niters (f x)) e)
  | inr below ↦ ground (arith, h, below, left-update niters n k f c (ground (arith, h, below)))
]

left_of-next : (niters try : ℕ) → left_of niters (next_try niters try) ≤ 3 * (niters - try)
left_of-next niters try = elim (Bool-cases (ltb try niters)) [
  | inl more ↦ rw more (ground (arith, more))
  | inr over ↦ rw over (omega arith)
]

module _ (nclients niters : ℕ) where
  abbrev pub work : System → ℕ
  work s = left niters nclients s.client + length s.requests

  run_step-work :
      (s : System) (xs : List (ℕ × ℕ)) {s' : System}
      → s.requests ≡ xs
      → run_step s ≡ some s'
      → work s' < work s
  unfolding run_step
  run_step-work s [] at h = absurd (ground (arith, at, h))
  run_step-work s (x ∷ xs) at h = ground (arith, at, h)

  client_step-work :
      (pid : ℕ) (s : System) (c : Client) (xs : List ℕ) {s' : System}
      → pid < nclients
      → s.client pid ≡ c
      → s.responses pid ≡ xs
      → client_step nclients niters pid s ≡ some s'
      → work s' < work s
  unfolding client_step
  client_step-work pid s starting xs {s'} lt at box h =
      let c = next_try niters 0 in
      let g : record s { client = update s.client pid c } ≡ s' = ground (arith, at, h) in
      let was = ap (λ x. left_of niters x) at in
      subst (λ (x : System). work x < work s) g
        (omega (arith, was, left-update niters nclients pid s.client c lt, left_of-next niters 0))
  client_step-work pid s (writing try) xs {s'} lt at box h =
      let s1 = record s {
        requests = s.requests ++ (pid, try) ∷ [];
        client = update s.client pid (reading try);
      } in
      let g : s1 ≡ s' = ground (arith, at, h) in
      let was = ap (λ x. left_of niters x) at in
      subst (λ (x : System). work x < work s) g
        (omega (
          arith,
          was,
          left-update niters nclients pid s.client (reading try) lt,
          length-append s.requests ((pid, try) ∷ []),
        ))
  client_step-work pid s (reading try) [] lt at box h = absurd (ground (arith, at, box, h))
  client_step-work pid s (reading try) (resp ∷ rest) {s'} lt at box h =
      let c = next_try niters try in
      let s1 = record s {
        responses = update s.responses pid rest;
        got = update s.got pid (s.got pid ++ resp ∷ []);
        client = update s.client pid c;
      } in
      let g : s1 ≡ s' = ground (arith, at, box, h) in
      let was = ap (λ x. left_of niters x) at in
      subst (λ (x : System). work x < work s) g
        (omega (arith, was, left-update niters nclients pid s.client c lt, left_of-next niters try))
  client_step-work pid s ended xs lt at box h = absurd (ground (arith, at, h))

  step-work :
      (t : Option ℕ) (s : System) {s' : System}
      → step nclients niters t s ≡ some s'
      → work s' < work s
  unfolding step
  step-work none s h = run_step-work s s.requests refl h
  step-work (some pid) s {s'} h = elim (Bool-cases (ltb pid nclients)) [
    | inl inside ↦
        let went : client_step nclients niters pid s ≡ some s' = ground (arith, h, inside) in
        client_step-work pid s (s.client pid) (s.responses pid) (ground (arith, inside)) refl refl
          went
    | inr outside ↦ absurd (ground (arith, h, outside))
  ]

  pub run-work :
      (ts : List (Option ℕ)) (s : System) {s' : System}
      → run nclients niters ts s ≡ some s'
      → length ts + work s' ≤ work s
  unfolding run
  run-work [] s {s'} h =
      let g : s ≡ s' = ground (arith, h) in omega (arith, ap (λ (x : System). work x) g)
  run-work (t ∷ ts) s {s'} h = elim (Option-cases (step nclients niters t s)) [
    | inl stuck ↦ absurd (ground (arith, h, stuck))
    | inr (s1, took) ↦
        omega (arith, step-work t s {s' = s1} took, run-work ts s1 {s' = s'} (rw (run, took) at h))
  ]

  pub new_system-work : (n : ℕ) → left niters n (λ k. starting) ≡ n * (3 * niters + 1)
  new_system-work zero = omega arith
  new_system-work (suc n) =
      ap (λ k. 3 * niters + 1 + k) (new_system-work n) ∙ sym (mul.suc n (3 * niters + 1))
