-- ===== src/ThreadPool/Earlier.antt =====
-- aula-05-13/tpool.c: the earlier thread pool, whose threads test `terminated` before they take an
-- item, and whose tp_destroy holds the lock while it waits for them. A move is a stretch of one
-- thread between two points at which another may run; `none` where that thread cannot go on.
mod Examples
pub mod Items
pub mod Moves
use so_1920v_li41n.Prelude.{
  ℕ, zero, suc, Bool, true, false, ◌&&◌, Option, none, some, List, [], ◌∷◌, ◌++◌, ltb,
  if◌then◌else◌, update,
}
use so_1920v_li41n.ThreadPool.{nthreads}

-- Where a thread of the pool stands in `oper_func`.
pub data Place : Type 0 where
  testing : Place
  waiting : Place
  executing : (item : ℕ) → Place
  exited : Place

-- Who holds `lock`, and what is left to do: a client that has passed the test of tp_submit, or
-- tp_destroy, which has null items left to put, or waits for the threads.
pub data Holder : Type 0 where
  nobody : Holder
  submitter : (item : ℕ) → Holder
  filling : (left : ℕ) → Holder
  joining : Holder

-- `submitted` and `executed` record the items that the pool accepted, and those whose functions have
-- ended; `finished` tells that tp_destroy has joined all threads.
pub record Pool : Type 0 where
  pub queue : List (Option ℕ)
  pub terminated : Bool
  pub holder : Holder
  pub place : ℕ → Place
  pub finished : Bool
  pub submitted : List ℕ
  pub executed : List ℕ

unfoldable pub tp_init : Pool
tp_init = record {
  queue = [];
  terminated = false;
  holder = nobody;
  place = λ i. testing;
  finished = false;
  submitted = [];
  executed = [];
}

-- `tp_submit` up to its test, which finds the pool terminated, and the lock is free again, or not.
unfoldable pub tp_submit_lock : ℕ → Pool → Option Pool
tp_submit_lock item p = elim p.holder [
  | nobody ↦ some (if p.terminated then p else record p { holder = submitter item })
  | _ ↦ none
]

unfoldable pub tp_submit_put : Pool → Option Pool
tp_submit_put p = elim p.holder [
  | submitter item ↦ some (record p {
    queue = p.queue ++ some item ∷ [];
    holder = nobody;
    submitted = item ∷ p.submitted;
  })
  | _ ↦ none
]

-- The first call of `tp_destroy` up to its loops.
unfoldable pub tp_destroy_lock : Pool → Option Pool
tp_destroy_lock p = elim p.holder [
  | nobody ↦
      if p.terminated
      then none
      else some (record p { terminated = true; holder = filling nthreads })
  | _ ↦ none
]

-- A round of the first loop of `tp_destroy`, or its end.
unfoldable pub tp_destroy_put : Pool → Option Pool
tp_destroy_put p = elim p.holder [
  | filling zero ↦ some (record p { holder = joining })
  | filling (suc left) ↦ some (record p { queue = p.queue ++ none ∷ []; holder = filling left })
  | _ ↦ none
]

abbrev pub has_exited : Place → Bool
has_exited exited = true
has_exited _ = false

abbrev pub all_exited : ℕ → (ℕ → Place) → Bool
all_exited zero place = true
all_exited (suc n) place = has_exited (place n) && all_exited n place

-- The joins, and the unlocking.
unfoldable pub tp_destroy_join : Pool → Option Pool
tp_destroy_join p = elim p.holder [
  | joining ↦
      if all_exited nthreads p.place
      then some (record p { holder = nobody; finished = true })
      else none
  | _ ↦ none
]

-- The condition of the loop of `oper_func`.
unfoldable pub oper_func_test : ℕ → Pool → Option Pool
oper_func_test i p = elim (p.place i) [
  | testing ↦
      some (record p { place = update p.place i (if p.terminated then exited else waiting) })
  | _ ↦ none
]

-- `queue_get` and the test of its result.
unfoldable pub oper_func_get : ℕ → Pool → Option Pool
oper_func_get i p = elim (p.place i) [
  | waiting ↦ elim p.queue [
    | [] ↦ none
    | none ∷ rest ↦ some (record p { queue = rest; place = update p.place i exited })
    | (some item) ∷ rest ↦
        some (record p { queue = rest; place = update p.place i (executing item) })
  ]
  | _ ↦ none
]

unfoldable pub oper_func_done : ℕ → Pool → Option Pool
oper_func_done i p = elim (p.place i) [
  | executing item ↦
      some (record p { place = update p.place i testing; executed = item ∷ p.executed })
  | _ ↦ none
]

pub data Move : Type 0 where
  submit_lock : (item : ℕ) → Move
  submit_put : Move
  destroy_lock : Move
  destroy_put : Move
  destroy_join : Move
  worker_test : (i : ℕ) → Move
  worker_get : (i : ℕ) → Move
  worker_done : (i : ℕ) → Move

unfoldable pub move : Move → Pool → Option Pool
move (submit_lock item) p = tp_submit_lock item p
move submit_put p = tp_submit_put p
move destroy_lock p = tp_destroy_lock p
move destroy_put p = tp_destroy_put p
move destroy_join p = tp_destroy_join p
move (worker_test i) p = if ltb i nthreads then oper_func_test i p else none
move (worker_get i) p = if ltb i nthreads then oper_func_get i p else none
move (worker_done i) p = if ltb i nthreads then oper_func_done i p else none

-- The moves of a schedule, if each is possible in its turn.
unfoldable pub run : List Move → Pool → Option Pool
run [] p = some p
run (m ∷ ms) p = elim (move m p) [ none ↦ none | some p' ↦ run ms p' ]
