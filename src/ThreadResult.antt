-- ===== src/ThreadResult.antt =====
-- aula-04-29/uthreads/uthread/uthread.c and uthreadinternal.h: threads that return a result.
-- The scheduler of that version is the one of Uthread, but for the `state` that it sets and only the
-- tests read; this file builds on the machine of Uthread. It adds the fields of a descriptor that hold
-- a result, the wait blocks of the threads that wait for one, and UtExit. `none` is an access to a
-- block that was freed, or fuel that has run out.
pub mod Asked
pub mod Create
mod Examples
pub mod Deliver
pub mod Exit
pub mod Get
use so_1920v_li41n.Prelude.{
  ℕ, zero, suc, ◌+◌, ◌-◌, ◌%◌, ◌^◌, Bool, true, false, ◌&&◌, not, Option, none, some, ◌==◌,
  if◌then◌else◌, update,
}
use so_1920v_li41n.Ring.{Addr, is_list_empty, remove_head_list, insert_tail_list}
use so_1920v_li41n.Uthread.{
  Machine, restore_context, extract_next_thread, ut_self, ut_activate, ut_deactivate,
}

-- RES_WAITBLOCK without its `link`, which is its first field.
pub record ResWaitBlock : Type 0 where
  pub thread_handle : Addr
  pub result : ℕ

-- The fields of UTHREAD that hold its result; `res` counts if `has_result`.
pub record Result : Type 0 where
  pub has_result : Bool
  pub res : ℕ

pub record World : Type 0 where
  pub machine : Machine
  pub block : Addr → ResWaitBlock
  pub result : Addr → Result

-- `&thread->res_waiters`, behind the pointer, the link, the state and the result.
abbrev pub res_waiters_of : Addr → Addr
res_waiters_of thread = thread + 40

-- `free(Thread->Stack); if (!Thread->hasResult) free(Thread);`
unfoldable pub cleanup_thread : Addr → World → Option World
cleanup_thread thread w =
    let m = w.machine in
    let freed = update m.allocated (m.thread thread).stack false in
    if m.allocated (m.thread thread).stack && freed thread
    then (if (w.result thread).has_result
        then some (record w { machine = record m { allocated = freed } })
        else some (record w { machine = record m { allocated = update freed thread false } }))
    else none

unfoldable pub internal_exit : (thread next : Addr) → World → Option World
internal_exit thread next w =
    elim (cleanup_thread thread
      (record w { machine = record w.machine { running_thread = next } })) [
        | none ↦ none
        | some w' ↦ some (record w' { machine = restore_context next w'.machine })
      ]

-- A round of the loop of UtExit, on the head of the list at `waiters`.
unfoldable pub deliver : (waiters : Addr) (res : ℕ) → World → World
deliver waiters res w =
    let m = w.machine in
    let (pblock, links) = remove_head_list m.links waiters in
    let block = update w.block pblock (record (w.block pblock) { result = res }) in
    record w {
      machine = ut_activate (block pblock).thread_handle (record m { links = links });
      block = block;
    }

-- The loop, which tests its condition behind each round.
unfoldable pub deliver_loop : ℕ → (waiters : Addr) (res : ℕ) → World → Option World
deliver_loop zero waiters res w = none
deliver_loop (suc fuel) waiters res w =
    let w' = deliver waiters res w in
    let rest = deliver_loop fuel waiters res w' in
    if is_list_empty w'.machine.links waiters then some w' else rest

-- `number_of_threads` is an unsigned long.
abbrev pub uncount : World → World
uncount w = record w {
  machine = record w.machine {
    number_of_threads = (w.machine.number_of_threads + 2 ^ 64 - 1) % 2 ^ 64;
  };
}

-- What UtExit does with its result.
unfoldable pub hand_over : ℕ → (res : ℕ) → World → Option World
hand_over fuel res w =
    let thread = w.machine.running_thread in
    if is_list_empty w.machine.links (res_waiters_of thread)
    then some
        (record w { result = update w.result thread (record { has_result = true; res = res }) })
    else deliver_loop fuel (res_waiters_of thread) res w

unfoldable pub ut_exit : ℕ → (res : ℕ) → World → Option World
ut_exit fuel res w = elim (hand_over fuel res (uncount w)) [
  | none ↦ none
  | some w' ↦
      let (next, m) = extract_next_thread w'.machine in
      internal_exit m.running_thread next (record w' { machine = m })
]

-- The result, if there is one: the thread's descriptor is freed with it.
unfoldable pub ut_try_get_thread_result : Addr → World → Option (Option ℕ × World)
ut_try_get_thread_result thread w =
    let m = w.machine in
    if ut_self m == thread
    then some (none, w)
    else if m.allocated thread
    then (if (w.result thread).has_result
        then some (
          some (w.result thread).res,
          record w { machine = record m { allocated = update m.allocated thread false } },
        )
        else some (none, w))
    else none

unfoldable pub initialize_res_wait_block : Addr → World → World
initialize_res_wait_block wait w = record w {
  block = update w.block wait (record (w.block wait) { thread_handle = ut_self w.machine });
}

-- What a call of UtGetThreadResult has come to: it has returned FALSE, or TRUE with a result, or it
-- has stopped, and returns the result of its wait block when it runs again.
pub data Answer : Type 0 where
  no_result : Answer
  result_is : ℕ → Answer
  stopped : Answer

-- `wait_block` is the address of the local variable of that name.
unfoldable pub ut_get_thread_result : (wait_block thread : Addr) → World → Option (Answer × World)
ut_get_thread_result wait_block thread w =
    if ut_self w.machine == thread
    then some (no_result, w)
    else elim (ut_try_get_thread_result thread w) [
      | none ↦ none
      | some (some res, w') ↦ some (result_is res, w')
      | some (none, _) ↦
          let w = initialize_res_wait_block wait_block w in
          let m = w.machine in
          let links = insert_tail_list m.links (res_waiters_of thread) wait_block in
          some (stopped, record w { machine = ut_deactivate (record m { links = links }) })
    ]

-- The rest of UtGetThreadResult, when the thread runs again.
unfoldable pub ut_get_resumed : (wait_block : Addr) → World → ℕ
ut_get_resumed wait_block w = (w.block wait_block).result

-- The rest of Schedule, when the thread that called it runs again: it writes to the `state` of the
-- thread to which it switched, `next_thread`.
unfoldable pub schedule_resumed : (next_thread : Addr) → World → Option World
schedule_resumed next_thread w = if w.machine.allocated next_thread then some w else none
