-- ===== src/Adder/Pool.antt =====
-- aula-05-13a/tp_adder.c: the sum by a thread pool. The main thread, thread 0 of the latch, submits a
-- range after the other and waits on the latch; the threads of the pool take the ranges in their order,
-- sum them, and signal the latch, each at its own pace. What the pool promises is that an item that
-- was submitted is taken once. The wait on the latch may end by itself.
mod Examples
pub mod Answer
pub mod Ends
pub mod Sound
use so_1920v_li41n.Prelude.{
  ℕ, ◌+◌, ◌/◌, Bool, true, false, Option, none, some, List, [], ◌∷◌, ◌++◌, ◌==◌, ltb, has, remove,
  if◌then◌else◌, update,
}
use so_1920v_li41n.Adder.{Long, Range, nprocs, oper_func, collect}
use so_1920v_li41n.Latch.{
  Cdl, Place, outside, testing, blocked, passed, cdl_init, cdl_signal_one, cdl_wait_for_all,
}

-- `submitted`, `taken` and `summed` are the numbers of the ranges that are in the pool's queue, in the
-- loop of a thread, and summed but not signalled.
pub record State (A : Type 0) : Type 0 where
  pub i : ℕ
  pub curr : ℕ
  pub ranges : ℕ → Range A
  pub cdl : Cdl
  pub submitted : List ℕ
  pub taken : List ℕ
  pub summed : List ℕ
  pub result : Option A

-- The step of the main thread, the end of its wait by itself, the taking of an item, and the two parts
-- of oper_func.
pub data Turn : Type 0 where
  main : Turn
  wakes : Turn
  takes : Turn
  sums : (i : ℕ) → Turn
  signals : (i : ℕ) → Turn

module _ (long : Long) (vals : ℕ → Long.Carrier long) (nvals : ℕ) where
  open long use {Carrier, nought, plus}

  -- par_adder up to its loop; `ranges` is what the array on the stack holds at first.
  unfoldable pub par_adder_start : (ℕ → Range Carrier) → State Carrier
  par_adder_start ranges = record {
    i = 0;
    curr = 0;
    ranges = ranges;
    cdl = cdl_init nprocs;
    submitted = [];
    taken = [];
    summed = [];
    result = none;
  }

  -- A round of the loop, up to tp_submit.
  unfoldable pub par_adder_submit : State Carrier → State Carrier
  par_adder_submit s =
      let range_size = nvals / nprocs in
      let range : Range Carrier = record {
        start = s.curr;
        last = if ltb nvals (s.curr + range_size) then nvals else s.curr + range_size;
        count = nought;
      } in
      record s {
        ranges = update s.ranges s.i range;
        curr = s.curr + range_size;
        submitted = s.submitted ++ s.i ∷ [];
        i = s.i + 1;
      }

  -- The call of cdl_wait_for_all, and what follows it.
  unfoldable pub par_adder_wait : State Carrier → Option (State Carrier)
  par_adder_wait s = elim (s.cdl.thread 0) [
    | outside ↦ some (record s { cdl = cdl_wait_for_all 0 s.cdl })
    | testing ↦ some (record s { cdl = cdl_wait_for_all 0 s.cdl })
    | blocked ↦ none
    | passed ↦ elim s.result [
      | none ↦ some (record s { result = some (collect long nprocs 0 s.ranges nought) })
      | some total ↦ none
    ]
  ]

  unfoldable pub main_step : State Carrier → Option (State Carrier)
  main_step s = if ltb s.i nprocs then some (par_adder_submit s) else par_adder_wait s

  unfoldable pub wake_step : State Carrier → Option (State Carrier)
  wake_step s = elim (s.cdl.thread 0) [
    | blocked ↦ some (record s { cdl = record s.cdl { thread = update s.cdl.thread 0 testing } })
    | _ ↦ none
  ]

  unfoldable pub take_step : State Carrier → Option (State Carrier)
  take_step s = elim s.submitted [
    | [] ↦ none
    | i ∷ rest ↦ some (record s { submitted = rest; taken = i ∷ s.taken })
  ]

  -- oper_func up to its call of cdl_signal_one, and that call.
  unfoldable pub oper_func_sum : ℕ → State Carrier → Option (State Carrier)
  oper_func_sum i s =
      if has i s.taken
      then some (record s {
        ranges = update s.ranges i (oper_func long vals (s.ranges i));
        taken = remove i s.taken;
        summed = i ∷ s.summed;
      })
      else none

  unfoldable pub oper_func_signal : ℕ → State Carrier → Option (State Carrier)
  oper_func_signal i s =
      if has i s.summed
      then some (record s { cdl = cdl_signal_one s.cdl; summed = remove i s.summed })
      else none

  unfoldable pub step : Turn → State Carrier → Option (State Carrier)
  step main s = main_step s
  step wakes s = wake_step s
  step takes s = take_step s
  step (sums i) s = oper_func_sum i s
  step (signals i) s = oper_func_signal i s

  unfoldable pub run : List Turn → State Carrier → Option (State Carrier)
  run [] s = some s
  run (t ∷ ts) s = elim (step t s) [ none ↦ none | some s' ↦ run ts s' ]
