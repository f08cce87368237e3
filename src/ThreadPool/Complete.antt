-- ===== src/ThreadPool/Complete.antt =====
-- Every accepted item is executed, once, before `tp_destroy` is done.
use so_1920v_li41n.Prelude.{
  ℕ, ◌+◌, ◌<◌, ◌≡◌, refl, Option, none, some, [], ◌∷◌, arith, replicate, count, count-append,
}
use so_1920v_li41n.ThreadPool.{
  Pool, Worker, waiting, executing, exited, finished, nthreads, tp_init, tp_submit_test,
  tp_submit_put, tp_destroy_enter, tp_destroy_fill, tp_destroy_join, oper_func_done,
}
use so_1920v_li41n.ThreadPool.Count.{
  total, total-update, executes, total-executes, total-start, queued, queued-append,
  queued-le-works, empty_of_counts,
}
use so_1920v_li41n.ThreadPool.Steps.{
  submit_test, submit_put, destroy_enter, destroy_fill, destroy_join, worker_get, worker_done,
  System, held, item_of, Step, Reach, here, next,
}
use so_1920v_li41n.ThreadPool.Safety.{Reach-Inv, Taken, null_item, work_item, taken}

-- The occurrences of the item `a` in the queue and in the hands of the threads.
abbrev open_items : ℕ → Pool → ℕ
open_items a p = queued a p.queue + total (executes a) nthreads p.worker

module _ (a : ℕ) where
  test-same :
      (item : ℕ) (p : Pool) {p' : Pool}
      → tp_submit_test item p ≡ some p'
      → open_items a p' ≡ open_items a p
  unfolding tp_submit_test
  test-same item p e = ground arith

  put_held :
      (p : Pool) {p' : Pool} (h : Option ℕ)
      → p.holder ≡ h
      → tp_submit_put p ≡ some p'
      → open_items a p' ≡ open_items a p + count a (held p.holder)
  unfolding tp_submit_put
  put_held p none f e = absurd (ground arith)
  put_held p (some x) f e = ground (arith, queued-append a p.queue (some x ∷ []))

  enter-same :
      (p : Pool) {p' : Pool} → tp_destroy_enter p ≡ some p' → open_items a p' ≡ open_items a p
  unfolding tp_destroy_enter
  enter-same p e = ground arith

  fill-same :
      (p : Pool) {p' : Pool} → tp_destroy_fill p ≡ some p' → open_items a p' ≡ open_items a p
  unfolding tp_destroy_fill
  fill-same p e = ground (arith, queued-append a p.queue (replicate nthreads none))

  join-same :
      (p : Pool) {p' : Pool} → tp_destroy_join p ≡ some p' → open_items a p' ≡ open_items a p
  unfolding tp_destroy_join
  join-same p e = ground arith

  Taken-same :
      (k : ℕ) (p : Pool) {p' : Pool}
      → k < nthreads
      → Taken k p p'
      → open_items a p' ≡ open_items a p
  Taken-same k p small (null_item rest e f g) =
      ground (arith, total-update (executes a) nthreads p.worker k exited small)
  Taken-same k p small (work_item x rest e f g) =
      ground (arith, total-update (executes a) nthreads p.worker k (executing x) small)

  done_item :
      (k : ℕ) (p : Pool) {p' : Pool} (w : Worker)
      → p.worker k ≡ w
      → k < nthreads
      → oper_func_done k p ≡ some p'
      → open_items a p' + count a (item_of (p.worker k)) ≡ open_items a p
  unfolding oper_func_done
  done_item k p waiting f small e = absurd (ground arith)
  done_item k p (executing x) f small e =
      ground (arith, total-update (executes a) nthreads p.worker k waiting small)
  done_item k p exited f small e = absurd (ground arith)

  Step-balance :
      {s t : System}
      → Step s t
      → count a s.submitted ≡ count a s.executed + open_items a s.pool
      → count a t.submitted ≡ count a t.executed + open_items a t.pool
  Step-balance {s} (submit_test item e) b = omega (arith, test-same item s.pool e)
  Step-balance {s} (submit_put e) b =
      omega (
        arith,
        put_held s.pool s.pool.holder refl e,
        count-append a s.submitted (held s.pool.holder),
      )
  Step-balance {s} (destroy_enter e) b = omega (arith, enter-same s.pool e)
  Step-balance {s} (destroy_fill e) b = omega (arith, fill-same s.pool e)
  Step-balance {s} (destroy_join e) b = omega (arith, join-same s.pool e)
  Step-balance {s} (worker_get k small e) b =
      omega (arith, Taken-same k s.pool small (taken k s.pool e))
  Step-balance {s} (worker_done k small e) b = omega (
    arith,
    done_item k s.pool (s.pool.worker k) refl small e,
    count-append a s.executed (item_of (s.pool.worker k)),
  )

  -- In every reachable state each accepted item has been executed, or is in the queue or in the hands
  -- of a thread, and none is there twice.
  pub submitted-balance :
      {s : System}
      → Reach s
      → count a s.submitted
        ≡ count a s.executed + (queued a s.pool.queue + total (executes a) nthreads s.pool.worker)
  unfolding tp_init
  submitted-balance here = ground (arith, total-start (executes a) nthreads refl)
  submitted-balance (next r st) = Step-balance st (submitted-balance r)

  -- When `tp_destroy` is done, every accepted item has been executed exactly as often as it was
  -- accepted, and the queue is empty.
  pub finished-executed :
      {s : System}
      → Reach s
      → s.pool.destroyer ≡ finished
      → (count a s.submitted ≡ count a s.executed) × (s.pool.queue ≡ [])
  finished-executed {s} r e =
      let i = Reach-Inv r in
      (
        ground (
          arith,
          i.over,
          i.drained,
          submitted-balance r,
          queued-le-works a s.pool.queue,
          total-executes a nthreads s.pool.worker,
        ),
        empty_of_counts s.pool.queue (ground (arith, i.ends, i.over))
            (ground (arith, i.drained, i.over)),
      )
