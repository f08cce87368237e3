-- ===== src/ThreadPool/Examples.antt =====
-- A run of the pool: one item is submitted and executed, and the pool is destroyed.
use so_1920v_li41n.Prelude.{◌+◌, ◌≡◌, refl, Option, none, some, [], ◌∷◌, arith, count}
use so_1920v_li41n.ThreadPool.{
  Pool, nthreads, finished, tp_init, tp_submit_test, tp_submit_put, tp_destroy_enter,
  tp_destroy_fill, tp_destroy_join, oper_func_get, oper_func_done,
}
use so_1920v_li41n.ThreadPool.Steps.{
  submit_test, submit_put, destroy_enter, destroy_fill, destroy_join, worker_get, worker_done,
  Reach, here, next,
}
use so_1920v_li41n.ThreadPool.Count.{total, executes, queued}
use so_1920v_li41n.ThreadPool.Complete.{submitted-balance, finished-executed}

abbrev and_then : Option Pool → (Pool → Option Pool) → Option Pool
and_then none f = none
and_then (some p) f = f p

-- The pool in which the item 9 is executed.
executing_run : (p : Pool) × Reach (record { pool = p; submitted = 9 ∷ []; executed = [] })
unfolding tp_init tp_submit_test tp_submit_put oper_func_get
executing_run = (
  _,
  next (next (next here (submit_test 9 refl)) (submit_put refl)) (worker_get 0 (omega arith) refl),
)

finished_run :
    (p : Pool) × Reach (record { pool = p; submitted = 9 ∷ []; executed = 9 ∷ [] })
    × (p.destroyer ≡ finished)
unfolding tp_init tp_submit_test tp_submit_put oper_func_get oper_func_done tp_destroy_enter
    tp_destroy_fill tp_destroy_join
finished_run =
    let r =
      next (next (next here (submit_test 9 refl)) (submit_put refl))
        (worker_get 0 (omega arith) refl) in
    let r = next r (worker_done 0 (omega arith) refl) in
    let r = next (next r (destroy_enter refl)) (destroy_fill refl) in
    let r = next (next r (worker_get 0 (omega arith) refl)) (worker_get 1 (omega arith) refl) in
    let r = next (next r (worker_get 2 (omega arith) refl)) (worker_get 3 (omega arith) refl) in
    let r = next (next r (worker_get 4 (omega arith) refl)) (worker_get 5 (omega arith) refl) in
    let r = next (next r (worker_get 6 (omega arith) refl)) (worker_get 7 (omega arith) refl) in
    (_, next r (destroy_join refl), refl)

submitted-balance_example :
    count 9 (9 ∷ [])
    ≡ count 9 []
      + (queued 9 executing_run.0.queue + total (executes 9) nthreads executing_run.0.worker)
submitted-balance_example = submitted-balance 9 executing_run.1

finished-executed_example : (count 9 (9 ∷ []) ≡ count 9 (9 ∷ [])) × (finished_run.0.queue ≡ [])
finished-executed_example = finished-executed 9 finished_run.1 finished_run.2
