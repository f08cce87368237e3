-- ===== src/ThreadResult/Get.antt =====
-- UtTryGetThreadResult and UtGetThreadResult, before and after the thread's UtExit.
use so_1920v_li41n.Prelude.{
  ℕ, ◌+◌, ◌<◌, length, ◌≡◌, ◌≢◌, refl, true, false, none, some, List, [], ◌∷◌, ◌++◌, arith, has,
  ◌==◌, ==-eq-false, if◌then◌else◌, update, is_nil,
}
use so_1920v_li41n.Ring.{Addr, insert_tail_list}
use so_1920v_li41n.Uthread.{
  Machine, ut_self, ut_deactivate, schedule, extract_next_thread, context_switch, save_context,
  restore_context,
}
use so_1920v_li41n.Uthread.Spec.{deactivate}
use so_1920v_li41n.Uthread.Refine.{running}
use so_1920v_li41n.Synch.Waiters.{Beside, scheduler_cells, insert_tail-Beside, deactivate-Beside}
use so_1920v_li41n.ThreadResult.{
  World, res_waiters_of, ut_try_get_thread_result, initialize_res_wait_block, stopped,
  ut_get_thread_result, ut_get_resumed, ut_exit,
}
use so_1920v_li41n.ThreadResult.Exit.{Exited, ut_exit-Exited}
use so_1920v_li41n.ThreadResult.Deliver.{handles}
use so_1920v_li41n.Synch.Event.Set.{AllWait}
use so_1920v_li41n.Uthread.Lifetime.{HasBlocks}
use mathlib.Core.Path.{subst}

-- The first thread that asks for the result of a thread that has exited gets it.
abbrev pub Taken : (t res : Addr) → World → Type 0
Taken t res w =
    (w' : World) × (ut_try_get_thread_result t w ≡ some (some res, w'))
    × (w'.machine.allocated t ≡ false)
    × (ut_try_get_thread_result t w' ≡ none)

ut_get_resumed-Exited :
    (t res : Addr) (blocks : List Addr) (w w' : World) (a : Addr)
    → Exited t res blocks w w'
    → w'.machine.running_thread ≢ t
    → if is_nil blocks
      then Taken t res w'
      else ((ut_try_get_thread_result t w' ≡ none)
          × (if has a blocks then ut_get_resumed a w' ≡ res else w'.block a ≡ w.block a))
unfolding ut_try_get_thread_result ut_get_resumed ut_self
ut_get_resumed-Exited t res [] w w' a x other =
    let elsewhere = ==-eq-false w'.machine.running_thread t other in
    (
      record w' { machine = record w'.machine { allocated = update w'.machine.allocated t false } },
      rw (elsewhere, x.descriptor, x.kept) refl,
      ground arith,
      rw elsewhere (ground arith),
    )
ut_get_resumed-Exited t res (b ∷ bs) w w' a x other =
    let elsewhere = ==-eq-false w'.machine.running_thread t other in
    (rw (elsewhere, x.descriptor) refl, ground (arith, x.got a))

-- Behind a UtExit of a thread with two allocated blocks, no result yet and waiting threads that are blocked,
-- when another thread runs: if nobody waited for the result, the running thread that asks gets it, once,
-- the descriptor is freed with it, and a second call reads the freed block. If others waited, they return
-- the result, the other wait blocks are as they were, and already the first call reads the freed descriptor.
pub ut_exit-Taken :
    (main t res : Addr) (ts bs blocks : List Addr) (fuel : ℕ) (w : World) {w' : World} (a : Addr)
    → Beside main (res_waiters_of t) w.machine (running t ts bs) blocks
    → HasBlocks w.machine t
    → (w.result t).has_result ≡ false
    → length blocks < fuel + 1
    → AllWait (handles w.block blocks) bs
    → ut_exit fuel res w ≡ some w'
    → w'.machine.running_thread ≢ t
    → if is_nil blocks
      then Taken t res w'
      else ((ut_try_get_thread_result t w' ≡ none)
          × (if has a blocks then ut_get_resumed a w' ≡ res else w'.block a ≡ w.block a))
ut_exit-Taken main t res ts bs blocks fuel w {w'} a b two fresh enough waits exited other =
    let (w1, made, r, x) = ut_exit-Exited main t res ts bs fuel w blocks b two fresh enough waits in
    let g : w1 ≡ w' = ground (arith, made, exited) in
    ut_get_resumed-Exited t res blocks w w' a (subst (Exited t res blocks w) g x) other

ut_deactivate-allocated : (m : Machine) → (ut_deactivate m).allocated ≡ m.allocated
unfolding ut_deactivate schedule extract_next_thread context_switch save_context restore_context
ut_deactivate-allocated m = ground arith

ut_deactivate-stack :
    (m : Machine) (t : Addr) → ((ut_deactivate m).thread t).stack ≡ (m.thread t).stack
unfolding ut_deactivate schedule extract_next_thread context_switch save_context restore_context
ut_deactivate-stack m t = ground arith

-- UtGetThreadResult on a thread that has not exited puts the wait block, in which the running thread
-- is recorded, behind the others, and stops the thread; it frees nothing and changes no result.
pub ut_get_thread_result-stopped :
    (main e t c : Addr) (w : World) (ts bs blocks : List Addr)
    → Beside main (res_waiters_of t) w.machine (running c ts bs) blocks
    → c ≢ t
    → w.machine.allocated t ≡ true
    → (w.result t).has_result ≡ false
    → has e (res_waiters_of t ∷ blocks) ≡ false
    → has e (scheduler_cells main w.machine (running c ts bs)) ≡ false
    → (w' : World) × (ut_get_thread_result e t w ≡ some (stopped, w'))
      × ((w'.block e).thread_handle ≡ c)
      × Beside main (res_waiters_of t) w'.machine (deactivate (running c ts bs)) (blocks ++ e ∷ [])
      × (w'.machine.allocated ≡ w.machine.allocated)
      × ((w'.machine.thread t).stack ≡ (w.machine.thread t).stack)
      × (w'.result ≡ w.result)
unfolding ut_get_thread_result ut_try_get_thread_result initialize_res_wait_block ut_self
ut_get_thread_result-stopped main e t c w ts bs blocks b other live fresh out away =
    let elsewhere : (w.machine.running_thread == t) ≡ false =
      ground (arith, b.refines.running, other) in
    let m1 : Machine = record w.machine {
      links = insert_tail_list w.machine.links (res_waiters_of t) e;
    } in
    (
      record w {
        machine = ut_deactivate m1;
        block = update w.block e (record (w.block e) { thread_handle = w.machine.running_thread });
      },
      rw (elsewhere, live, fresh) refl,
      ground (arith, b.refines.running),
      deactivate-Beside main (res_waiters_of t) m1 c ts bs (blocks ++ e ∷ []) (
          insert_tail-Beside main (res_waiters_of t) w.machine e (running c ts bs) blocks b out
            away),
      ut_deactivate-allocated m1,
      ut_deactivate-stack m1 t,
      refl,
    )
