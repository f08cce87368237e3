-- ===== src/ThreadPool.antt =====
-- aula-05-13a/tpool.c: the thread pool. Its threads and its clients interleave, a critical section or
-- an atomic access at a time. The queue is that of BlockingQueue, by the list of its items: a work
-- item is its number, and a null item is `none`.
pub mod Steps
pub mod Count
pub mod Safety
pub mod Complete
pub mod Earlier
mod Examples
use so_1920v_li41n.Prelude.{
  ℕ, Bool, true, false, ◌&&◌, not, Option, none, some, List, [], ◌∷◌, ◌++◌, if◌then◌else◌,
  replicate, update,
}

-- Where a thread of the pool stands in `oper_func`.
pub data Worker : Type 0 where
  waiting : Worker
  executing : (item : ℕ) → Worker
  exited : Worker

-- Where `tp_destroy` stands: not called, after its compare-and-exchange, waiting for the threads,
-- and done.
pub data Destroyer : Type 0 where
  absent : Destroyer
  entered : Destroyer
  joining : Destroyer
  finished : Destroyer

abbrev pub nthreads : ℕ
nthreads = 8

-- `holder` is the item of the client that holds `lock` in `tp_submit` and has passed its second test.
pub record Pool : Type 0 where
  pub queue : List (Option ℕ)
  pub destroying : Bool
  pub holder : Option ℕ
  pub worker : ℕ → Worker
  pub destroyer : Destroyer

unfoldable pub tp_init : Pool
tp_init = record {
  queue = [];
  destroying = false;
  holder = none;
  worker = λ i. waiting;
  destroyer = absent;
}

-- `tp_submit` up to its second test: it returns if either test finds the pool in destruction, and
-- waits, as `none`, while another client holds the lock.
unfoldable pub tp_submit_test : ℕ → Pool → Option Pool
tp_submit_test item p =
    if p.destroying
    then some p
    else elim p.holder [ none ↦ some (record p { holder = some item }) | some other ↦ none ]

-- The rest of `tp_submit`, behind the second test.
unfoldable pub tp_submit_put : Pool → Option Pool
tp_submit_put p = elim p.holder [
  | none ↦ none
  | some item ↦ some (record p { queue = p.queue ++ some item ∷ []; holder = none })
]

-- The compare-and-exchange of `tp_destroy`; a later call finds `destroying` set.
unfoldable pub tp_destroy_enter : Pool → Option Pool
tp_destroy_enter p =
    if p.destroying then none else some (record p { destroying = true; destroyer = entered })

abbrev pub is_free : Option ℕ → Bool
is_free none = true
is_free (some item) = false

abbrev pub is_entered : Destroyer → Bool
is_entered entered = true
is_entered _ = false

-- The critical section of `tp_destroy`: a null item for each thread.
unfoldable pub tp_destroy_fill : Pool → Option Pool
tp_destroy_fill p =
    if is_entered p.destroyer && is_free p.holder
    then some (record p { queue = p.queue ++ replicate nthreads none; destroyer = joining })
    else none

abbrev pub has_exited : Worker → Bool
has_exited exited = true
has_exited _ = false

abbrev pub all_exited : ℕ → (ℕ → Worker) → Bool
all_exited ℕ.zero worker = true
all_exited (ℕ.suc n) worker = has_exited (worker n) && all_exited n worker

abbrev pub is_joining : Destroyer → Bool
is_joining joining = true
is_joining _ = false

-- The joins of `tp_destroy`, which wait for every thread.
unfoldable pub tp_destroy_join : Pool → Option Pool
tp_destroy_join p =
    if is_joining p.destroyer && all_exited nthreads p.worker
    then some (record p { destroyer = finished })
    else none

-- `queue_get` and the test of its result in `oper_func`, by the thread `i`.
unfoldable pub oper_func_get : ℕ → Pool → Option Pool
oper_func_get i p = elim (p.worker i) [
  | waiting ↦ elim p.queue [
    | [] ↦ none
    | none ∷ rest ↦ some (record p { queue = rest; worker = update p.worker i exited })
    | (some item) ∷ rest ↦
        some (record p { queue = rest; worker = update p.worker i (executing item) })
  ]
  | executing item ↦ none
  | exited ↦ none
]

-- The end of the item's function.
unfoldable pub oper_func_done : ℕ → Pool → Option Pool
oper_func_done i p = elim (p.worker i) [
  | waiting ↦ none
  | executing item ↦ some (record p { worker = update p.worker i waiting })
  | exited ↦ none
]
