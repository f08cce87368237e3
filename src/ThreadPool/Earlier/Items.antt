-- ===== src/ThreadPool/Earlier/Items.antt =====
-- What becomes of the items of the earlier pool.
use so_1920v_li41n.Prelude.{
  ℕ, zero, suc, ◌+◌, ◌≡◌, refl, true, some, List, [], ◌∷◌, arith, if◌then◌else◌, count, Bool-cases,
  Option-cases, inl, inr,
}
use so_1920v_li41n.ThreadPool.{nthreads}
use so_1920v_li41n.ThreadPool.Count.{total, queued}
use so_1920v_li41n.ThreadPool.Earlier.{
  Pool, tp_init, tp_submit_lock, tp_submit_put, tp_destroy_lock, tp_destroy_put, all_exited,
  tp_destroy_join, oper_func_test, Move, submit_lock, submit_put, destroy_lock, destroy_put,
  destroy_join, worker_test, move, run,
}
use so_1920v_li41n.ThreadPool.Earlier.Moves.{executes, Inv, total-executes, move-Inv}

run-Inv : (ms : List Move) (p : Pool) {p' : Pool} → Inv p → run ms p ≡ some p' → Inv p'
unfolding run
run-Inv [] p {p'} v e = let g : p' ≡ p = ground arith in rw g v
run-Inv (m ∷ ms) p v e = elim (Option-cases (move m p)) [
  | inl stuck ↦ absurd (ground arith)
  | inr (p1, took) ↦ run-Inv ms p1 (move-Inv m p v took) (rw (run, took) at e)
]

init-Inv : Inv tp_init
unfolding tp_init total
init-Inv = record { balance = λ a. refl; over = λ h. absurd (cc) }

-- After any schedule, every accepted item has been executed, or is in the queue or in the hands of a
-- thread, once. When tp_destroy has finished, no thread has an item.
pub run-items :
    (ms : List Move) {p : Pool} (a : ℕ)
    → run ms tp_init ≡ some p
    → if p.finished
      then count a p.submitted ≡ count a p.executed + queued a p.queue
      else count a p.submitted
        ≡ count a p.executed + (queued a p.queue + total (executes a) nthreads p.place)
run-items ms {p} a e =
    let v = run-Inv ms tp_init init-Inv e in
    elim (Bool-cases p.finished) [
      | inl done ↦
          rw done (omega (arith, v.balance a, v.over done, total-executes a nthreads p.place))
      | inr going ↦ rw going (v.balance a)
    ]

abbrev tests : ℕ → List Move → List Move
tests zero ms = ms
tests (suc n) ms = worker_test n ∷ tests n ms

abbrev puts : ℕ → List Move → List Move
puts zero ms = destroy_put ∷ ms
puts (suc n) ms = destroy_put ∷ puts n ms

-- A client submits an item and tp_destroy is called before a thread has made its first test.
abbrev pub too_early : ℕ → List Move
too_early item =
    submit_lock item
    ∷ submit_put
    ∷ destroy_lock
    ∷ puts nthreads (tests nthreads (destroy_join ∷ []))

-- There is a schedule on which tp_destroy finishes, though the one item that was accepted, whichever
-- it is, has not been executed and no thread is left that could.
pub run-too_early :
    (item : ℕ)
    → (p : Pool) × (run (too_early item) tp_init ≡ some p)
      × (p.finished ≡ true)
      × (p.submitted ≡ item ∷ [])
      × (p.executed ≡ [])
      × (all_exited nthreads p.place ≡ true)
unfolding run move tp_init tp_submit_lock tp_submit_put tp_destroy_lock tp_destroy_put
    tp_destroy_join oper_func_test
run-too_early item = (_, refl, refl, refl, refl, refl)
