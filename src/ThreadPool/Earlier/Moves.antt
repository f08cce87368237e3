-- ===== src/ThreadPool/Earlier/Moves.antt =====
-- What each move of the earlier pool keeps.
use so_1920v_li41n.Prelude.{
  ℕ, zero, suc, ◌+◌, ◌≤◌, ◌<◌, ◌≡◌, refl, true, Option, none, some, List, [], ◌∷◌, ◌++◌, arith,
  ◌==◌, ltb, if◌then◌else◌, update, count, Bool-cases, inl, inr,
}
use so_1920v_li41n.ThreadPool.{nthreads}
use so_1920v_li41n.ThreadPool.Count.{total, total-update, queued, queued-append}
use so_1920v_li41n.ThreadPool.Earlier.{
  Place, testing, waiting, executing, exited, Holder, nobody, submitter, filling, joining, Pool,
  tp_submit_lock, tp_submit_put, tp_destroy_lock, tp_destroy_put, all_exited, tp_destroy_join,
  oper_func_test, oper_func_get, oper_func_done, Move, submit_lock, submit_put, destroy_lock,
  destroy_put, destroy_join, worker_test, worker_get, worker_done, move,
}

abbrev pub executes : ℕ → Place → ℕ
executes a (executing item) = if a == item then 1 else 0
executes a _ = 0

abbrev pub exits : Place → ℕ
exits exited = 1
exits _ = 0

-- Every accepted item has been executed, or is in the queue or in the hands of a thread, once; when
-- tp_destroy has finished all threads have exited.
pub record Inv (p : Pool) : Type 0 where
  pub balance :
      (a : ℕ)
      → count a p.submitted
        ≡ count a p.executed + (queued a p.queue + total (executes a) nthreads p.place)
  pub over : p.finished ≡ true → total exits nthreads p.place ≡ nthreads

pub total-executes : (a n : ℕ) (f : ℕ → Place) → total (executes a) n f + total exits n f ≤ n
unfolding total
total-executes a zero f = omega arith
total-executes a (suc n) f = ground (arith, total-executes a n f)

total-all_exited : (n : ℕ) (f : ℕ → Place) → all_exited n f ≡ true → total exits n f ≡ n
unfolding total
total-all_exited zero f h = refl
total-all_exited (suc n) f h = ground (arith, total-all_exited n f)

-- A thread that has not exited moves on to `w`, and with it the queue and the executed items change.
abbrev moved : ℕ → Place → List (Option ℕ) → List ℕ → Pool → Pool
moved i w queue executed p = record p {
  place = update p.place i w;
  queue = queue;
  executed = executed;
}

module _ (i : ℕ) (p : Pool) (small : i < nthreads) (v : Inv p) where
  -- tp_destroy has not finished.
  unfinished : exits (p.place i) ≡ 0 → p.finished ≡ true → exits (p.place i) ≡ 1
  unfinished h f = absurd (
      omega (
        arith,
        v.over f,
        total-update exits nthreads p.place i exited small,
        total-executes 0 nthreads (update p.place i exited),
      ))

  moved-Inv :
      (w : Place) (queue : List (Option ℕ)) (executed : List ℕ)
      → exits (p.place i) ≡ 0
      → ((a : ℕ)
          → count a executed + (queued a queue + executes a w)
            ≡ count a p.executed + (queued a p.queue + executes a (p.place i)))
      → Inv (moved i w queue executed p)
  moved-Inv w queue executed h same = record {
    balance = λ a.
        omega (arith, v.balance a, same a, total-update (executes a) nthreads p.place i w small);
    over = λ f. absurd (omega (arith, h, unfinished h f));
  }

  test-Inv : {p' : Pool} (w : Place) → p.place i ≡ w → oper_func_test i p ≡ some p' → Inv p'
  unfolding oper_func_test
  test-Inv {p'} testing f e =
      let next : Place = if p.terminated then exited else waiting in
      let g : p' ≡ moved i next p.queue p.executed p = ground (arith, e, f) in
      rw g (moved-Inv next p.queue p.executed (ground (arith, f)) (λ a. ground (arith, f)))
  test-Inv waiting f e = absurd (ground arith)
  test-Inv (executing x) f e = absurd (ground arith)
  test-Inv exited f e = absurd (ground arith)

  get-Inv :
      {p' : Pool} (w : Place) (q : List (Option ℕ))
      → p.place i ≡ w
      → p.queue ≡ q
      → oper_func_get i p ≡ some p'
      → Inv p'
  unfolding oper_func_get
  get-Inv {p'} waiting (none ∷ rest) f q e =
      let g : p' ≡ moved i exited rest p.executed p = ground (arith, e, f, q) in
      rw g (moved-Inv exited rest p.executed (ground (arith, f)) (λ a. ground (arith, f, q)))
  get-Inv {p'} waiting (some x ∷ rest) f q e =
      let g : p' ≡ moved i (executing x) rest p.executed p = ground (arith, e, f, q) in
      rw g (moved-Inv (executing x) rest p.executed (ground (arith, f)) (λ a. ground (arith, f, q)))
  get-Inv waiting [] f q e = absurd (ground arith)
  get-Inv testing q f g e = absurd (ground arith)
  get-Inv (executing x) q f g e = absurd (ground arith)
  get-Inv exited q f g e = absurd (ground arith)

  done-Inv : {p' : Pool} (w : Place) → p.place i ≡ w → oper_func_done i p ≡ some p' → Inv p'
  unfolding oper_func_done
  done-Inv {p'} (executing x) f e =
      let g : p' ≡ moved i testing p.queue (x ∷ p.executed) p = ground (arith, e, f) in
      rw g (moved-Inv testing p.queue (x ∷ p.executed) (ground (arith, f)) (λ a. ground (arith, f)))
  done-Inv testing f e = absurd (ground arith)
  done-Inv waiting f e = absurd (ground arith)
  done-Inv exited f e = absurd (ground arith)

module _ (p : Pool) {p' : Pool} (v : Inv p) where
  submit_lock-Inv :
      (item : ℕ) (h : Holder) → p.holder ≡ h → tp_submit_lock item p ≡ some p' → Inv p'
  unfolding tp_submit_lock
  submit_lock-Inv item nobody f e = elim (Bool-cases p.terminated) [
    | inl ended ↦ let g : p' ≡ p = ground (arith, e, f, ended) in rw g v
    | inr going ↦
        let g : p' ≡ record p { holder = submitter item } = ground (arith, e, f, going) in
        rw g (record { balance = v.balance; over = v.over })
  ]
  submit_lock-Inv item (submitter x) f e = absurd (ground arith)
  submit_lock-Inv item (filling n) f e = absurd (ground arith)
  submit_lock-Inv item joining f e = absurd (ground arith)

  submit_put-Inv : (h : Holder) → p.holder ≡ h → tp_submit_put p ≡ some p' → Inv p'
  unfolding tp_submit_put
  submit_put-Inv (submitter x) f e =
      let g : p' ≡ record p {
        queue = p.queue ++ some x ∷ [];
        holder = nobody;
        submitted = x ∷ p.submitted;
      } =
        ground (arith, e, f) in
      rw g (record {
        balance = λ a. ground (arith, v.balance a, queued-append a p.queue (some x ∷ []));
        over = v.over;
      })
  submit_put-Inv nobody f e = absurd (ground arith)
  submit_put-Inv (filling n) f e = absurd (ground arith)
  submit_put-Inv joining f e = absurd (ground arith)

  destroy_lock-Inv : (h : Holder) → p.holder ≡ h → tp_destroy_lock p ≡ some p' → Inv p'
  unfolding tp_destroy_lock
  destroy_lock-Inv nobody f e =
      let g : p' ≡ record p { terminated = true; holder = filling nthreads } =
        ground (arith, e, f) in
      rw g (record { balance = v.balance; over = v.over })
  destroy_lock-Inv (submitter x) f e = absurd (ground arith)
  destroy_lock-Inv (filling n) f e = absurd (ground arith)
  destroy_lock-Inv joining f e = absurd (ground arith)

  destroy_put-Inv : (h : Holder) → p.holder ≡ h → tp_destroy_put p ≡ some p' → Inv p'
  unfolding tp_destroy_put
  destroy_put-Inv (filling zero) f e =
      let g : p' ≡ record p { holder = joining } = ground (arith, e, f) in
      rw g (record { balance = v.balance; over = v.over })
  destroy_put-Inv (filling (suc n)) f e =
      let g : p' ≡ record p { queue = p.queue ++ none ∷ []; holder = filling n } =
        ground (arith, e, f) in
      rw g (record {
        balance = λ a. ground (arith, v.balance a, queued-append a p.queue (none ∷ []));
        over = v.over;
      })
  destroy_put-Inv nobody f e = absurd (ground arith)
  destroy_put-Inv (submitter x) f e = absurd (ground arith)
  destroy_put-Inv joining f e = absurd (ground arith)

  destroy_join-Inv : (h : Holder) → p.holder ≡ h → tp_destroy_join p ≡ some p' → Inv p'
  unfolding tp_destroy_join
  destroy_join-Inv joining f e = elim (Bool-cases (all_exited nthreads p.place)) [
    | inl all ↦
        let g : p' ≡ record p { holder = nobody; finished = true } = ground (arith, e, f, all) in
        rw g (record { balance = v.balance; over = λ h. total-all_exited nthreads p.place all })
    | inr some_left ↦ absurd (ground (arith, e, f, some_left))
  ]
  destroy_join-Inv nobody f e = absurd (ground arith)
  destroy_join-Inv (submitter x) f e = absurd (ground arith)
  destroy_join-Inv (filling n) f e = absurd (ground arith)

pub move-Inv : (m : Move) (p : Pool) {p' : Pool} → Inv p → move m p ≡ some p' → Inv p'
unfolding move
move-Inv (submit_lock item) p v e = submit_lock-Inv p v item p.holder refl e
move-Inv submit_put p v e = submit_put-Inv p v p.holder refl e
move-Inv destroy_lock p v e = destroy_lock-Inv p v p.holder refl e
move-Inv destroy_put p v e = destroy_put-Inv p v p.holder refl e
move-Inv destroy_join p v e = destroy_join-Inv p v p.holder refl e
move-Inv (worker_test i) p v e = elim (Bool-cases (ltb i nthreads)) [
  | inl small ↦ test-Inv i p (ground arith) v (p.place i) refl (rw small at e)
  | inr large ↦ absurd (ground arith)
]
move-Inv (worker_get i) p v e = elim (Bool-cases (ltb i nthreads)) [
  | inl small ↦ get-Inv i p (ground arith) v (p.place i) p.queue refl refl (rw small at e)
  | inr large ↦ absurd (ground arith)
]
move-Inv (worker_done i) p v e = elim (Bool-cases (ltb i nthreads)) [
  | inl small ↦ done-Inv i p (ground arith) v (p.place i) refl (rw small at e)
  | inr large ↦ absurd (ground arith)
]
