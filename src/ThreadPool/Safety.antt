-- ===== src/ThreadPool/Safety.antt =====
-- What holds in every reachable state of the pool.
use so_1920v_li41n.Prelude.{
  Option-cases, ℕ, ◌+◌, ◌<◌, ◌≡◌, ◌⊎◌, inl, inr, refl, Bool, true, false, Option, none, some, List,
  [], ◌∷◌, ◌++◌, arith, if◌then◌else◌, update, replicate,
}
use so_1920v_li41n.ThreadPool.{
  Pool, Worker, waiting, executing, exited, Destroyer, absent, entered, joining, finished, nthreads,
  tp_init, tp_submit_test, tp_submit_put, tp_destroy_enter, tp_destroy_fill, tp_destroy_join,
  oper_func_get, oper_func_done,
}
use so_1920v_li41n.ThreadPool.Count.{
  total, total-update, exits, total-all_exited, total-start, nulls, works, WorksFirst, nulls-append,
  works-append, WorksFirst-append,
}
use so_1920v_li41n.ThreadPool.Steps.{
  submit_test, submit_put, destroy_enter, destroy_fill, destroy_join, worker_get, worker_done,
  System, held, Step, Reach, here, next,
}

-- The null items are in the queue, or were.
abbrev pub filled : Destroyer → Bool
filled absent = false
filled entered = false
filled joining = true
filled finished = true

abbrev pub is_absent : Destroyer → Bool
is_absent absent = true
is_absent _ = false

abbrev pub is_finished : Destroyer → Bool
is_finished finished = true
is_finished _ = false

pub record Inv (p : Pool) : Type 0 where
  pub ends :
      nulls p.queue + total exits nthreads p.worker ≡ (if filled p.destroyer then nthreads else 0)
  pub order : WorksFirst p.queue
  pub drained : (total exits nthreads p.worker ≡ 0) ⊎ (works p.queue ≡ 0)
  pub closed : (is_absent p.destroyer ≡ true) ⊎ (p.destroying ≡ true)
  pub quiet : (filled p.destroyer ≡ false) ⊎ (p.holder ≡ none)
  pub over : (is_finished p.destroyer ≡ false) ⊎ (total exits nthreads p.worker ≡ nthreads)

pub test-Inv : (item : ℕ) (p : Pool) {p' : Pool} → Inv p → tp_submit_test item p ≡ some p' → Inv p'
unfolding tp_submit_test
test-Inv item p i e = ground arith

put_some-Inv :
    (p : Pool) (item : ℕ)
    → Inv p
    → p.holder ≡ some item
    → Inv (record p { queue = p.queue ++ some item ∷ []; holder = none })
put_some-Inv p item i e = ground (
  arith,
  nulls-append p.queue (some item ∷ []),
  works-append p.queue (some item ∷ []),
  WorksFirst-append p.queue (some item ∷ []),
)

pub put-Inv : (p : Pool) {p' : Pool} → Inv p → tp_submit_put p ≡ some p' → Inv p'
unfolding tp_submit_put
put-Inv p i e = elim (Option-cases p.holder) [
  | inl free ↦ absurd (ground arith)
  | inr (item, held) ↦ ground (arith, put_some-Inv p item i held)
]

pub enter-Inv : (p : Pool) {p' : Pool} → Inv p → tp_destroy_enter p ≡ some p' → Inv p'
unfolding tp_destroy_enter
enter-Inv p i e = ground arith

pub fill-Inv : (p : Pool) {p' : Pool} → Inv p → tp_destroy_fill p ≡ some p' → Inv p'
unfolding tp_destroy_fill
fill-Inv p i e = ground (
  arith,
  nulls-append p.queue (replicate nthreads none),
  works-append p.queue (replicate nthreads none),
  WorksFirst-append p.queue (replicate nthreads none),
)

pub join-Inv : (p : Pool) {p' : Pool} → Inv p → tp_destroy_join p ≡ some p' → Inv p'
unfolding tp_destroy_join
join-Inv p i e = ground (arith, total-all_exited nthreads p.worker)

-- The steps of the pool's threads, for the queue and the thread's place written out.
pub get_null-Inv :
    (p : Pool) (rest : List (Option ℕ)) (k : ℕ)
    → Inv p
    → p.queue ≡ none ∷ rest
    → p.worker k ≡ waiting
    → k < nthreads
    → Inv (record p { queue = rest; worker = update p.worker k exited })
get_null-Inv p rest k i e f small =
    ground (arith, total-update exits nthreads p.worker k exited small)

pub get_work-Inv :
    (p : Pool) (item : ℕ) (rest : List (Option ℕ)) (k : ℕ)
    → Inv p
    → p.queue ≡ some item ∷ rest
    → p.worker k ≡ waiting
    → k < nthreads
    → Inv (record p { queue = rest; worker = update p.worker k (executing item) })
get_work-Inv p item rest k i e f small =
    ground (arith, total-update exits nthreads p.worker k (executing item) small)

pub done-Inv :
    (k : ℕ) (p : Pool) {p' : Pool} → Inv p → k < nthreads → oper_func_done k p ≡ some p' → Inv p'
unfolding oper_func_done
done-Inv k p i small e = ground (arith, total-update exits nthreads p.worker k waiting small)

-- How `oper_func_get` can succeed: with a null item, or with a work item.
pub data Taken (k : ℕ) (p p' : Pool) : Type 0 where
  null_item :
      (rest : List (Option ℕ))
      → p.worker k ≡ waiting
      → p.queue ≡ none ∷ rest
      → p' ≡ record p { queue = rest; worker = update p.worker k exited }
      → Taken k p p'
  work_item :
      (item : ℕ) (rest : List (Option ℕ))
      → p.worker k ≡ waiting
      → p.queue ≡ some item ∷ rest
      → p' ≡ record p { queue = rest; worker = update p.worker k (executing item) }
      → Taken k p p'

Taken-from :
    (k : ℕ) (p : Pool) {p' : Pool} (w : Worker) (q : List (Option ℕ))
    → p.worker k ≡ w
    → p.queue ≡ q
    → oper_func_get k p ≡ some p'
    → Taken k p p'
unfolding oper_func_get
Taken-from k p waiting [] e f h = absurd (ground arith)
Taken-from k p waiting (none ∷ rest) e f h = null_item rest e f (ground arith)
Taken-from k p waiting (some x ∷ rest) e f h = work_item x rest e f (ground arith)
Taken-from k p (executing x) q e f h = absurd (ground arith)
Taken-from k p exited q e f h = absurd (ground arith)

pub taken : (k : ℕ) (p : Pool) {p' : Pool} → oper_func_get k p ≡ some p' → Taken k p p'
taken k p h = Taken-from k p (p.worker k) p.queue refl refl h

Taken-Inv : (k : ℕ) (p : Pool) {p' : Pool} → Inv p → k < nthreads → Taken k p p' → Inv p'
Taken-Inv k p i small (null_item rest e f g) = rw g (get_null-Inv p rest k i f e small)
Taken-Inv k p i small (work_item x rest e f g) = rw g (get_work-Inv p x rest k i f e small)

pub Step-Inv : {s t : System} → Step s t → Inv s.pool → Inv t.pool
Step-Inv {s} (submit_test item e) i = test-Inv item s.pool i e
Step-Inv {s} (submit_put e) i = put-Inv s.pool i e
Step-Inv {s} (destroy_enter e) i = enter-Inv s.pool i e
Step-Inv {s} (destroy_fill e) i = fill-Inv s.pool i e
Step-Inv {s} (destroy_join e) i = join-Inv s.pool i e
Step-Inv {s} (worker_get k small e) i = Taken-Inv k s.pool i small (taken k s.pool e)
Step-Inv {s} (worker_done k small e) i = done-Inv k s.pool i small e

pub Reach-Inv : {s : System} → Reach s → Inv s.pool
unfolding tp_init
Reach-Inv here = ground (arith, total-start exits nthreads refl)
Reach-Inv (next r st) = Step-Inv st (Reach-Inv r)
