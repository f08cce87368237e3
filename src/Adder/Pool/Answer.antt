-- ===== src/Adder/Pool/Answer.antt =====
-- What the main thread of the sum by a pool returns, and that it is never stuck.
use mathlib.Core.Path.{subst}
use so_1920v_li41n.Prelude.{
  ℕ, ◌<◌, ◌≡◌, ◌⊎◌, ◌∙◌, refl, sym, some, List, [], ◌∷◌, ltb, has, update, arith, Bool-cases,
  Option-cases, inl, inr, remove, length-none,
}
use so_1920v_li41n.Adder.{Long, Range, nprocs, oper_func, collect}
use so_1920v_li41n.Latch.{
  Place, outside, testing, blocked, passed, cdl_init, cdl_signal_one, cdl_wait_for_all,
}
use so_1920v_li41n.Adder.Pool.{
  State, Turn, main, wakes, takes, sums, signals, par_adder_start, par_adder_submit, par_adder_wait,
  main_step, wake_step, take_step, oper_func_sum, oper_func_signal, step, run,
}
use so_1920v_li41n.Adder.Pool.Sound.{all_sums, Inv, submit-Inv, take-Inv, sum-Inv, signal-Inv}

module _ (long : Long) (vals : ℕ → Long.Carrier long) (nvals : ℕ) where
  open long use {Carrier, nought, plus}

  pub start-Inv :
      (ranges : ℕ → Range Carrier) → Inv long vals nvals (par_adder_start long vals nvals ranges)
  unfolding par_adder_start cdl_init
  start-Inv ranges = record {
    rounds = omega arith;
    curr = refl;
    made = λ j lt. absurd (omega (arith, lt));
    ready = λ j lt a b. absurd (omega (arith, lt));
    known = λ j h. absurd (ground (arith, h));
    size = refl;
    opened = λ e. absurd (ground (arith, e));
    held = λ e. absurd (ground (arith, e));
    answer = λ x e. absurd (ground (arith, e));
  }

  module _ (s : State Carrier) where
    -- The test of the counter by the main thread, and the end of a wait by itself.
    wait-Inv :
        Inv long vals nvals s → Inv long vals nvals (record s { cdl = cdl_wait_for_all 0 s.cdl })
    unfolding cdl_wait_for_all
    wait-Inv v = record {
      rounds = v.rounds;
      curr = v.curr;
      made = v.made;
      ready = v.ready;
      known = v.known;
      size = v.size;
      opened = λ e. ground (arith, e);
      held = λ e. ground (arith, e);
      answer = v.answer;
    }

    wake-Inv :
        Inv long vals nvals s
        → Inv long vals nvals
            (record s { cdl = record s.cdl { thread = update s.cdl.thread 0 testing } })
    wake-Inv v = record {
      rounds = v.rounds;
      curr = v.curr;
      made = v.made;
      ready = v.ready;
      known = v.known;
      size = v.size;
      opened = λ e. absurd (ground (arith, e));
      held = λ e. absurd (ground (arith, e));
      answer = v.answer;
    }

    -- Behind the latch every range is summed.
    collect-sums :
        Inv long vals nvals s
        → s.cdl.counter ≡ 0
        → collect long nprocs 0 s.ranges nought ≡ all_sums long vals nvals
    unfolding collect
    collect-sums v zero_left =
        let all : s.i ≡ nprocs = omega (arith, v.size, v.rounds, zero_left) in
        let count = λ (j : ℕ) (lt : j < nprocs).
          v.ready j (omega (arith, lt, all))
            (length-none j s.submitted (omega (arith, v.size, v.rounds, zero_left)))
            (length-none j s.taken (omega (arith, v.size, v.rounds, zero_left))) in
        rw
          (
            count 0 (omega arith),
            count 1 (omega arith),
            count 2 (omega arith),
            count 3 (omega arith),
          )
          refl

    collect-Inv :
        Inv long vals nvals s
        → s.cdl.thread 0 ≡ passed
        → Inv long vals nvals (record s { result = some (collect long nprocs 0 s.ranges nought) })
    collect-Inv v behind = record {
      rounds = v.rounds;
      curr = v.curr;
      made = v.made;
      ready = v.ready;
      known = v.known;
      size = v.size;
      opened = v.opened;
      held = v.held;
      answer = λ x e.
          let same : collect long nprocs 0 s.ranges nought ≡ x = ground (arith, e) in
          sym same ∙ collect-sums v (v.opened behind);
    }

  module _ (s : State Carrier) where
    par_adder_wait-Inv :
        {s' : State Carrier} (p : Place)
        → s.cdl.thread 0 ≡ p
        → Inv long vals nvals s
        → par_adder_wait long vals nvals s ≡ some s'
        → Inv long vals nvals s'
    unfolding par_adder_wait
    par_adder_wait-Inv {s'} outside at v h =
        let g : record s { cdl = cdl_wait_for_all 0 s.cdl } ≡ s' = ground (arith, h, at) in
        subst (Inv long vals nvals) g (wait-Inv s v)
    par_adder_wait-Inv {s'} testing at v h =
        let g : record s { cdl = cdl_wait_for_all 0 s.cdl } ≡ s' = ground (arith, h, at) in
        subst (Inv long vals nvals) g (wait-Inv s v)
    par_adder_wait-Inv blocked at v h = absurd (ground (arith, h, at))
    par_adder_wait-Inv {s'} passed at v h = elim (Option-cases s.result) [
      | inl not_yet ↦
          let s1 = record s { result = some (collect long nprocs 0 s.ranges nought) } in
          let g : s1 ≡ s' = ground (arith, h, at, not_yet) in
          subst (Inv long vals nvals) g (collect-Inv s v at)
      | inr (x, done) ↦ absurd (ground (arith, h, at, done))
    ]

    main_step-Inv :
        {s' : State Carrier}
        → Inv long vals nvals s
        → main_step long vals nvals s ≡ some s'
        → Inv long vals nvals s'
    unfolding main_step
    main_step-Inv {s'} v h = elim (Bool-cases (ltb s.i nprocs)) [
      | inl more ↦
          let g : par_adder_submit long vals nvals s ≡ s' = ground (arith, h, more) in
          subst (Inv long vals nvals) g (submit-Inv long vals nvals s v (ground (arith, more)))
      | inr over ↦
          let waits : par_adder_wait long vals nvals s ≡ some s' = ground (arith, h, over) in
          par_adder_wait-Inv (s.cdl.thread 0) refl v waits
    ]

    wake_step-Inv :
        {s' : State Carrier} (p : Place)
        → s.cdl.thread 0 ≡ p
        → Inv long vals nvals s
        → wake_step long vals nvals s ≡ some s'
        → Inv long vals nvals s'
    unfolding wake_step
    wake_step-Inv outside at v h = absurd (ground (arith, h, at))
    wake_step-Inv testing at v h = absurd (ground (arith, h, at))
    wake_step-Inv {s'} blocked at v h =
        let s1 = record s { cdl = record s.cdl { thread = update s.cdl.thread 0 testing } } in
        let g : s1 ≡ s' = ground (arith, h, at) in subst (Inv long vals nvals) g (wake-Inv s v)
    wake_step-Inv passed at v h = absurd (ground (arith, h, at))

    take_step-Inv :
        {s' : State Carrier} (xs : List ℕ)
        → s.submitted ≡ xs
        → Inv long vals nvals s
        → take_step long vals nvals s ≡ some s'
        → Inv long vals nvals s'
    unfolding take_step
    take_step-Inv [] at v h = absurd (ground (arith, h, at))
    take_step-Inv {s'} (i ∷ rest) at v h =
        let g : record s { submitted = rest; taken = i ∷ s.taken } ≡ s' = ground (arith, h, at) in
        subst (Inv long vals nvals) g (take-Inv long vals nvals s i rest v at)

    oper_func-Inv :
        {s' : State Carrier} (i : ℕ)
        → Inv long vals nvals s
        → (oper_func_sum long vals nvals i s ≡ some s')
          ⊎ (oper_func_signal long vals nvals i s ≡ some s')
        → Inv long vals nvals s'
    unfolding oper_func_sum oper_func_signal
    oper_func-Inv {s'} i v (inl h) = elim (Bool-cases (has i s.taken)) [
      | inl held ↦
          let s1 = record s {
            ranges = update s.ranges i (oper_func long vals (s.ranges i));
            taken = remove i s.taken;
            summed = i ∷ s.summed;
          } in
          let g : s1 ≡ s' = ground (arith, h, held) in
          subst (Inv long vals nvals) g (sum-Inv long vals nvals s i v held)
      | inr other ↦ absurd (ground (arith, h, other))
    ]
    oper_func-Inv {s'} i v (inr h) = elim (Bool-cases (has i s.summed)) [
      | inl held ↦
          let s1 = record s { cdl = cdl_signal_one s.cdl; summed = remove i s.summed } in
          let g : s1 ≡ s' = ground (arith, h, held) in
          subst (Inv long vals nvals) g (signal-Inv long vals nvals s i v held)
      | inr other ↦ absurd (ground (arith, h, other))
    ]

  step-Inv :
      (t : Turn) (s : State Carrier) {s' : State Carrier}
      → Inv long vals nvals s
      → step long vals nvals t s ≡ some s'
      → Inv long vals nvals s'
  unfolding step
  step-Inv main s v h = main_step-Inv s v h
  step-Inv wakes s v h = wake_step-Inv s (s.cdl.thread 0) refl v h
  step-Inv takes s v h = take_step-Inv s s.submitted refl v h
  step-Inv (sums i) s v h = oper_func-Inv s i v (inl h)
  step-Inv (signals i) s v h = oper_func-Inv s i v (inr h)

  pub run-Inv :
      (ts : List Turn) (s : State Carrier) {s' : State Carrier}
      → Inv long vals nvals s
      → run long vals nvals ts s ≡ some s'
      → Inv long vals nvals s'
  unfolding run
  run-Inv [] s {s'} v h = let g : s ≡ s' = ground (arith, h) in subst (Inv long vals nvals) g v
  run-Inv (t ∷ ts) s v h = elim (Option-cases (step long vals nvals t s)) [
    | inl stuck ↦ absurd (ground (arith, h, stuck))
    | inr (s1, took) ↦ run-Inv ts s1 (step-Inv t s v took) (rw (run, took) at h)
  ]
