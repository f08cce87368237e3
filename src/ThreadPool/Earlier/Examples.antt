-- ===== src/ThreadPool/Earlier/Examples.antt =====
-- Schedules of the earlier pool.
use so_1920v_li41n.Prelude.{◌≡◌, ◌+◌, refl, true, some, [], ◌∷◌, count, update}
use so_1920v_li41n.ThreadPool.{nthreads}
use so_1920v_li41n.ThreadPool.Count.{queued, total}
use so_1920v_li41n.ThreadPool.Earlier.{
  Pool, waiting, executing, all_exited, run, move, tp_init, submit_lock, submit_put, worker_test,
  worker_get, tp_submit_lock, tp_submit_put, oper_func_test, oper_func_get,
}
use so_1920v_li41n.ThreadPool.Earlier.Moves.{executes}
use so_1920v_li41n.ThreadPool.Earlier.Items.{run-items, too_early, run-too_early}

-- The thread 3 has taken the item 5.
abbrev taken : Pool
taken = record tp_init {
  submitted = 5 ∷ [];
  place = update (update tp_init.place 3 waiting) 3 (executing 5);
}

taken-run :
    run (submit_lock 5 ∷ submit_put ∷ worker_test 3 ∷ worker_get 3 ∷ []) tp_init ≡ some taken
unfolding run move tp_init tp_submit_lock tp_submit_put oper_func_test oper_func_get
taken-run = refl

run-items_example :
    count 5 taken.submitted
    ≡ count 5 taken.executed + (queued 5 taken.queue + total (executes 5) nthreads taken.place)
unfolding tp_init
run-items_example =
    run-items (submit_lock 5 ∷ submit_put ∷ worker_test 3 ∷ worker_get 3 ∷ []) 5 taken-run

run-too_early_example :
    (p : Pool) × (run (too_early 5) tp_init ≡ some p)
    × (p.finished ≡ true)
    × (p.submitted ≡ 5 ∷ [])
    × (p.executed ≡ [])
    × (all_exited nthreads p.place ≡ true)
run-too_early_example = run-too_early 5
