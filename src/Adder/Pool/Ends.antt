-- ===== src/Adder/Pool/Ends.antt =====
-- That the sum by a pool ends, and with the sum of the values up to a multiple of four.
use mathlib.Core.Path.{subst}
use so_1920v_li41n.Prelude.{
  ℕ, ◌+◌, ◌-◌, ◌*◌, ◌/◌, ◌%◌, ◌≤◌, ◌<◌, ◌≡◌, ◌≢◌, ◌∙◌, refl, sym, ap, Option, none, some, List, [],
  ◌∷◌, ltb, arith, ◌⊎◌, length, length-append, Bool-cases, Option-cases, inl, inr, length-remove,
}
use so_1920v_li41n.Adder.{Long, Range, nprocs, oper_func, collect}
use so_1920v_li41n.Latch.{
  Place, outside, testing, blocked, passed, cdl_init, cdl_signal_one, cdl_wait_for_all, woken,
}
use so_1920v_li41n.Adder.Pool.{
  State, Turn, main, wakes, takes, sums, signals, par_adder_start, par_adder_submit, par_adder_wait,
  main_step, wake_step, take_step, oper_func_sum, oper_func_signal, step, run,
}
use so_1920v_li41n.Adder.{seq_adder, par_adder, run_threads, make_ranges}
use so_1920v_li41n.Adder.Sums.{sum_from, seq_adder-par_adder}
use so_1920v_li41n.Adder.Pool.Sound.{Inv}
use so_1920v_li41n.Adder.Pool.Answer.{start-Inv, run-Inv}

-- The steps that are left, but for the waits that end by themselves.
abbrev place_work : Place → ℕ
place_work outside = 2
place_work testing = 2
place_work blocked = 1
place_work passed = 0

abbrev result_work {ℓ} : {A : Type ℓ} → Option A → ℕ
result_work none = 1
result_work (some x) = 0

abbrev work : {A : Type 0} → State A → ℕ
work s =
    5 * (nprocs - s.i)
    + 4 * length s.submitted
    + 3 * length s.taken
    + 2 * length s.summed
    + place_work (s.cdl.thread 0)
    + result_work s.result

abbrev pub wakings : List Turn → ℕ
wakings [] = 0
wakings (wakes ∷ ts) = wakings ts + 1
wakings (_ ∷ ts) = wakings ts

wakings-cons : (t : Turn) (ts : List Turn) → wakings (t ∷ ts) ≡ wakings (t ∷ []) + wakings ts
wakings-cons main ts = omega arith
wakings-cons wakes ts = omega arith
wakings-cons takes ts = omega arith
wakings-cons (sums i) ts = omega arith
wakings-cons (signals i) ts = omega arith

woken-work : (p : Place) → place_work (woken p) ≤ place_work p + 1
woken-work outside = omega arith
woken-work testing = omega arith
woken-work blocked = omega arith
woken-work passed = omega arith

module _ (long : Long) (vals : ℕ → Long.Carrier long) (nvals : ℕ) where
  open long use {Carrier, nought, plus}

  module _ (s : State Carrier) where
    -- A main thread that cannot go on, with nothing left to do for the pool, has its result.
    waiter-stuck :
        (p : Place)
        → s.cdl.thread 0 ≡ p
        → Inv long vals nvals s
        → main_step long vals nvals s ≡ none
        → length s.submitted ≡ 0
        → length s.taken ≡ 0
        → length s.summed ≡ 0
        → (total : Carrier) × (s.result ≡ some total)
    unfolding main_step par_adder_wait
    waiter-stuck outside at v h a b c = absurd (ground (arith, h, at))
    waiter-stuck testing at v h a b c = absurd (ground (arith, h, at))
    waiter-stuck blocked at v h a b c =
        let all : nprocs ≤ s.i = ground (arith, h) in
        absurd (omega (arith, v.held at, v.size, v.rounds, all, a, b, c))
    waiter-stuck passed at v h a b c = elim (Option-cases s.result) [
      | inl not_yet ↦ absurd (ground (arith, h, at, not_yet))
      | inr (total, done) ↦ (total, done)
    ]

    takes-stuck :
        (xs : List ℕ) → s.submitted ≡ xs → take_step long vals nvals s ≡ none → length xs ≡ 0
    unfolding take_step
    takes-stuck [] at h = refl
    takes-stuck (x ∷ xs) at h = absurd (ground (arith, h, at))

    -- A thread of the pool that has taken a work item can go on.
    sums_or_none :
        (xs : List ℕ)
        → s.taken ≡ xs
        → ((i : ℕ) × (s' : State Carrier) × (oper_func_sum long vals nvals i s ≡ some s'))
          ⊎ (length s.taken ≡ 0)
    unfolding oper_func_sum
    sums_or_none [] at = inr (ground (arith, at))
    sums_or_none (i ∷ xs) at = elim (Option-cases (oper_func_sum long vals nvals i s)) [
      | inr (s', took) ↦ inl (i, s', took)
      | inl h ↦ absurd (ground (arith, at, h))
    ]

    signals_or_none :
        (xs : List ℕ)
        → s.summed ≡ xs
        → ((i : ℕ) × (s' : State Carrier) × (oper_func_signal long vals nvals i s ≡ some s'))
          ⊎ (length s.summed ≡ 0)
    unfolding oper_func_signal
    signals_or_none [] at = inr (ground (arith, at))
    signals_or_none (i ∷ xs) at = elim (Option-cases (oper_func_signal long vals nvals i s)) [
      | inr (s', took) ↦ inl (i, s', took)
      | inl h ↦ absurd (ground (arith, at, h))
    ]

    -- Some thread can go on without a wait that ends by itself, or par_adder has its result.
    goes_or_has_result :
        Inv long vals nvals s
        → ((t : Turn) × (t ≢ wakes) × (s' : State Carrier) × (step long vals nvals t s ≡ some s'))
          ⊎ ((total : Carrier) × (s.result ≡ some total))
    unfolding step
    goes_or_has_result v = elim (sums_or_none s.taken refl) [
      | inl (i, s', took) ↦ inl (sums i, (λ e. absurd (ground (arith, e))), s', took)
      | inr b ↦ elim (signals_or_none s.summed refl) [
        | inl (i, s', took) ↦ inl (signals i, (λ e. absurd (ground (arith, e))), s', took)
        | inr c ↦ elim (Option-cases (take_step long vals nvals s)) [
          | inr (s', took) ↦ inl (takes, (λ e. absurd (ground (arith, e))), s', took)
          | inl quiet ↦ elim (Option-cases (main_step long vals nvals s)) [
            | inr (s', took) ↦ inl (main, (λ e. absurd (ground (arith, e))), s', took)
            | inl h ↦
                let a = takes-stuck s.submitted refl quiet in
                inr (waiter-stuck (s.cdl.thread 0) refl v h a b c)
          ]
        ]
      ]
    ]

    par_adder_wait-work :
        {s' : State Carrier} (p : Place)
        → s.cdl.thread 0 ≡ p
        → par_adder_wait long vals nvals s ≡ some s'
        → work s' < work s
    unfolding par_adder_wait cdl_wait_for_all
    par_adder_wait-work outside at h = ground (arith, h, at)
    par_adder_wait-work testing at h = ground (arith, h, at)
    par_adder_wait-work blocked at h = absurd (ground (arith, h, at))
    par_adder_wait-work passed at h = ground (arith, h, at)

    submit-work : s.i < nprocs → work (par_adder_submit long vals nvals s) < work s
    unfolding par_adder_submit
    submit-work more = omega (arith, more, length-append s.submitted (s.i ∷ []))

  step-work :
      (t : Turn) (s : State Carrier) {s' : State Carrier}
      → step long vals nvals t s ≡ some s'
      → work s' < work s + 2 * wakings (t ∷ [])
  unfolding step main_step wake_step take_step oper_func_sum oper_func_signal cdl_signal_one
  step-work main s {s'} h = elim (Bool-cases (ltb s.i nprocs)) [
    | inl more ↦
        let g : par_adder_submit long vals nvals s ≡ s' = ground (arith, h, more) in
        let less = submit-work s (ground (arith, more)) in
        subst (λ (x : State Carrier). work x < work s + 0) g (omega (arith, less))
    | inr over ↦
        let waits : par_adder_wait long vals nvals s ≡ some s' = ground (arith, h, over) in
        omega (arith, par_adder_wait-work s {s' = s'} (s.cdl.thread 0) refl waits)
  ]
  step-work wakes s h = ground (arith, h)
  step-work takes s h = ground (arith, h)
  step-work (sums i) s h = ground (arith, h, length-remove i s.taken)
  step-work (signals i) s h =
      ground (arith, h, length-remove i s.summed, woken-work (s.cdl.thread 0))

  run-work :
      (ts : List Turn) (s : State Carrier) {s' : State Carrier}
      → run long vals nvals ts s ≡ some s'
      → length ts + work s' ≤ work s + 2 * wakings ts
  unfolding run
  run-work [] s {s'} h =
      let g : s ≡ s' = ground (arith, h) in omega (arith, ap (λ (x : State Carrier). work x) g)
  run-work (t ∷ ts) s {s'} h = elim (Option-cases (step long vals nvals t s)) [
    | inl stuck ↦ absurd (ground (arith, h, stuck))
    | inr (s1, took) ↦ omega (
      arith,
      step-work t s {s' = s1} took,
      run-work ts s1 {s' = s'} (rw (run, took) at h),
      wakings-cons t ts,
    )
  ]

  -- Whatever the order of its turns, a run has at most 23 steps, and two more for each wait that ends by
  -- itself; and in the state that it reaches either a thread can take another step that is no such end of
  -- a wait, or par_adder has returned a total, which makes the sequential sum with the last `nvals % 4`
  -- values, which no thread adds.
  pub run-total :
      (ranges : ℕ → Range Carrier) (ts : List Turn) {s : State Carrier}
      → run long vals nvals ts (par_adder_start long vals nvals ranges) ≡ some s
      → (length ts ≤ 23 + 2 * wakings ts)
        × (((t : Turn) × (t ≢ wakes) × (s' : State Carrier) × (step long vals nvals t s ≡ some s'))
            ⊎ ((total : Carrier) × (s.result ≡ some total)
                × (seq_adder long vals nvals
                    ≡ plus total (sum_from long vals (4 * (nvals / 4)) (nvals % 4)))))
  unfolding par_adder_start cdl_init par_adder run_threads make_ranges collect oper_func
  run-total ranges ts {s} h =
      let v = run-Inv long vals nvals ts _ (start-Inv long vals nvals ranges) h in
      let order : List ℕ = 0 ∷ 1 ∷ 2 ∷ 3 ∷ [] in
      (
        omega (arith, run-work ts (par_adder_start long vals nvals ranges) {s' = s} h),
        elim (goes_or_has_result s v) [
          | inl on ↦ inl on
          | inr (total, done) ↦
              let same : par_adder long order vals nvals ranges ≡ total =
                sym (v.answer total done) in
              inr (
                total,
                done,
                seq_adder-par_adder long order vals nvals ranges refl refl refl refl
                    ∙ ap (λ x. plus x (sum_from long vals (4 * (nvals / 4)) (nvals % 4))) same,
              )
        ],
      )
