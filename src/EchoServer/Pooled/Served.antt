-- ===== src/EchoServer/Pooled/Served.antt =====
-- Every connection that was accepted is served to its end and closed.
use mathlib.Core.Path.{subst}
use so_1920v_li41n.Prelude.{
  ℕ, ◌+◌, ◌≤◌, ◌<◌, ◌≡◌, ◌≢◌, ◌∙◌, sym, ap, true, ◌&&◌, some, List, [], ◌∷◌, ◌++◌, append_assoc,
  arith, ◌==◌, ltb, has, remove, is_nil, length, if◌then◌else◌, update, count, count-append,
  count-remove, has-count, Bool-cases, Option-cases, inl, inr, refl,
}
use so_1920v_li41n.EchoServer.Pooled.{
  Main, accepting, destroying, finished, Server, Turn, main, dispatches, serves, main_start,
  run_step, main_step, dispatch_connection, process_connection, step, run,
}

module _ (messages : ℕ → List ℕ) (connections nthreads : ℕ) where
  pub record Inv (s : Server) : Type 0 where
    pub kept : (k : ℕ) → s.echoed k ++ s.unread k ≡ messages k
    pub ended : (k : ℕ) → 0 < count k s.closed → s.unread k ≡ []
    pub once :
        (k : ℕ)
        → count k s.queue + count k s.active + count k s.closed
          ≡ (if ltb k s.accepted then 1 else 0)
    pub bound : s.accepted ≤ connections
    pub all : s.place ≢ accepting → s.accepted ≡ connections
    pub idle : s.place ≡ finished → (s.queue ≡ []) × (s.active ≡ [])

  pub main_start-Inv : {s : Server} → main_start true true messages ≡ some s → Inv s
  unfolding main_start
  main_start-Inv {s} h =
      let s0 : Server = record {
        place = accepting;
        accepted = 0;
        queue = [];
        active = [];
        closed = [];
        unread = messages;
        echoed = λ k. [];
      } in
      let g : s0 ≡ s = ground (arith, h) in
      subst Inv g (record {
        kept = λ k. refl;
        ended = λ k lt. absurd (omega (arith, lt));
        once = λ k. ground arith;
        bound = omega arith;
        all = λ ne. absurd (ne refl);
        idle = λ e. absurd (ground (arith, e));
      })

  module _ (s : Server) where
    main_step-Inv :
        {s' : Server} (p : Main)
        → s.place ≡ p
        → Inv s
        → main_step connections nthreads s ≡ some s'
        → Inv s'
    unfolding main_step run_step
    main_step-Inv {s'} accepting at v h = elim (Bool-cases (ltb s.accepted connections)) [
      | inl more ↦
          let s1 = record s { queue = s.queue ++ s.accepted ∷ []; accepted = s.accepted + 1 } in
          let g : s1 ≡ s' = ground (arith, h, at, more) in
          subst Inv g (record {
            kept = v.kept;
            ended = v.ended;
            once = λ k. ground (arith, v.once k, count-append k s.queue (s.accepted ∷ []));
            bound = ground (arith, more);
            all = λ ne. absurd (ne at);
            idle = λ e. absurd (ground (arith, e, at));
          })
      | inr over ↦
          let g : record s { place = destroying } ≡ s' = ground (arith, h, at, over) in
          subst Inv g (record {
            kept = v.kept;
            ended = v.ended;
            once = v.once;
            bound = v.bound;
            all = λ ne. ground (arith, over, v.bound);
            idle = λ e. absurd (ground (arith, e));
          })
    ]
    main_step-Inv {s'} destroying at v h = elim (Bool-cases (is_nil s.queue && is_nil s.active)) [
      | inl empty ↦
          let g : record s { place = finished } ≡ s' = ground (arith, h, at, empty) in
          subst Inv g (record {
            kept = v.kept;
            ended = v.ended;
            once = v.once;
            bound = v.bound;
            all = λ ne. v.all (λ e. absurd (ground (arith, e, at)));
            idle = λ e. (ground (arith, empty), ground (arith, empty));
          })
      | inr busy ↦ absurd (ground (arith, h, at, busy))
    ]
    main_step-Inv finished at v h = absurd (ground (arith, h, at))

    dispatch_connection-Inv :
        {s' : Server} (xs : List ℕ)
        → s.queue ≡ xs
        → Inv s
        → dispatch_connection connections nthreads s ≡ some s'
        → Inv s'
    unfolding dispatch_connection
    dispatch_connection-Inv [] at v h = absurd (ground (arith, h, at))
    dispatch_connection-Inv {s'} (k ∷ rest) at v h =
        elim (Bool-cases (ltb (length s.active) nthreads)) [
          | inl free ↦
              let g : record s { queue = rest; active = k ∷ s.active } ≡ s' =
                ground (arith, h, at, free) in
              subst Inv g (record {
                kept = v.kept;
                ended = v.ended;
                once = λ j. omega (arith, v.once j, ap (λ xs. count j xs) at);
                bound = v.bound;
                all = v.all;
                idle = λ e. absurd (ground (arith, at, v.idle e));
              })
          | inr full ↦ absurd (ground (arith, h, at, full))
        ]

    process_connection-Inv :
        {s' : Server} (k : ℕ) (xs : List ℕ)
        → s.unread k ≡ xs
        → Inv s
        → process_connection connections nthreads k s ≡ some s'
        → Inv s'
    unfolding process_connection
    process_connection-Inv {s'} k [] at v h = elim (Bool-cases (has k s.active)) [
      | inl here ↦
          let s1 = record s { active = remove k s.active; closed = k ∷ s.closed } in
          let g : s1 ≡ s' = ground (arith, h, at, here) in
          subst Inv g (record {
            kept = v.kept;
            ended = λ j lt. elim (Bool-cases (j == k)) [
              | inl same ↦ ground (arith, same, at)
              | inr other ↦ v.ended j (ground (arith, lt, other))
            ];
            once = λ j. omega (arith, v.once j, count-remove j k s.active here);
            bound = v.bound;
            all = v.all;
            idle = λ e. absurd (ground (arith, here, v.idle e));
          })
      | inr gone ↦ absurd (ground (arith, h, gone))
    ]
    process_connection-Inv {s'} k (msg ∷ rest) at v h = elim (Bool-cases (has k s.active)) [
      | inl here ↦
          let s1 = record s {
            unread = update s.unread k rest;
            echoed = update s.echoed k (s.echoed k ++ msg ∷ []);
          } in
          let g : s1 ≡ s' = ground (arith, h, at, here) in
          subst Inv g (record {
            kept = λ j. elim (Bool-cases (j == k)) [
              | inl same ↦
                  let whole : s.echoed k ++ msg ∷ rest ≡ messages k =
                    sym (ap (λ xs. s.echoed k ++ xs) at) ∙ v.kept k in
                  ground (arith, same, append_assoc (s.echoed k) (msg ∷ []) rest ∙ whole)
              | inr other ↦ ground (arith, other, v.kept j)
            ];
            ended = λ j lt. elim (Bool-cases (j == k)) [
              | inl same ↦
                  let open_once = v.once k in
                  let held = has-count k s.active here in
                  let twice : 0 < count k s.closed = ground (arith, lt, same) in
                  absurd (ground (arith, open_once, held, twice))
              | inr other ↦ ground (arith, other, v.ended j lt)
            ];
            once = v.once;
            bound = v.bound;
            all = v.all;
            idle = v.idle;
          })
      | inr gone ↦ absurd (ground (arith, h, gone))
    ]

  pub step-Inv :
      (t : Turn) (s : Server) {s' : Server}
      → Inv s
      → step connections nthreads t s ≡ some s'
      → Inv s'
  unfolding step
  step-Inv main s v h = main_step-Inv s s.place refl v h
  step-Inv dispatches s v h = dispatch_connection-Inv s s.queue refl v h
  step-Inv (serves k) s v h = process_connection-Inv s k (s.unread k) refl v h

  pub run-Inv :
      (ts : List Turn) (s : Server) {s' : Server}
      → Inv s
      → run connections nthreads ts s ≡ some s'
      → Inv s'
  unfolding run
  run-Inv [] s {s'} v h = let g : s ≡ s' = ground (arith, h) in subst Inv g v
  run-Inv (t ∷ ts) s v h = elim (Option-cases (step connections nthreads t s)) [
    | inl stuck ↦ absurd (ground (arith, h, stuck))
    | inr (s1, took) ↦ run-Inv ts s1 (step-Inv t s v took) (rw (run, took) at h)
  ]
