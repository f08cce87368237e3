-- ===== src/ThreadPool/Steps.antt =====
-- The steps of a pool's threads and clients in any order, with a record of the accepted items and of
-- those whose functions have ended.
use so_1920v_li41n.Prelude.{ℕ, ◌<◌, ◌≡◌, Option, none, some, List, [], ◌∷◌, ◌++◌}
use so_1920v_li41n.ThreadPool.{
  Pool, Worker, waiting, executing, exited, nthreads, tp_init, tp_submit_test, tp_submit_put,
  tp_destroy_enter, tp_destroy_fill, tp_destroy_join, oper_func_get, oper_func_done,
}

pub record System : Type 0 where
  pub pool : Pool
  pub submitted : List ℕ
  pub executed : List ℕ

abbrev pub held : Option ℕ → List ℕ
held none = []
held (some item) = item ∷ []

abbrev pub item_of : Worker → List ℕ
item_of waiting = []
item_of (executing item) = item ∷ []
item_of exited = []

pub data Step (s : System) : System → Type 0 where
  submit_test :
      (item : ℕ) {p : Pool} → tp_submit_test item s.pool ≡ some p → Step s (record s { pool = p })
  submit_put :
      {p : Pool}
      → tp_submit_put s.pool ≡ some p
      → Step s (record s { pool = p; submitted = s.submitted ++ held s.pool.holder })
  destroy_enter : {p : Pool} → tp_destroy_enter s.pool ≡ some p → Step s (record s { pool = p })
  destroy_fill : {p : Pool} → tp_destroy_fill s.pool ≡ some p → Step s (record s { pool = p })
  destroy_join : {p : Pool} → tp_destroy_join s.pool ≡ some p → Step s (record s { pool = p })
  worker_get :
      (i : ℕ) {p : Pool}
      → i < nthreads
      → oper_func_get i s.pool ≡ some p
      → Step s (record s { pool = p })
  worker_done :
      (i : ℕ) {p : Pool}
      → i < nthreads
      → oper_func_done i s.pool ≡ some p
      → Step s (record s { pool = p; executed = s.executed ++ item_of (s.pool.worker i) })

abbrev pub start : System
start = record { pool = tp_init; submitted = []; executed = [] }

pub data Reach : System → Type 0 where
  here : Reach start
  next : {s t : System} → Reach s → Step s t → Reach t
