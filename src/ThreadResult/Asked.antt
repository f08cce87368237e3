-- ===== src/ThreadResult/Asked.antt =====
-- A thread that waits for the result of the next thread, from its question to the answer.
use mathlib.Core.Path.{subst}
use so_1920v_li41n.Prelude.{
  ◌≡◌, ◌≢◌, ◌∙◌, false, none, some, List, [], ◌∷◌, ◌++◌, arith, has, has-append, ap,
}
use so_1920v_li41n.Ring.{Addr}
use so_1920v_li41n.Uthread.Spec.{exit}
use so_1920v_li41n.Uthread.Refine.{Refines, running}
use so_1920v_li41n.Uthread.Lifetime.{HasBlocks}
use so_1920v_li41n.Synch.Waiters.{Beside, scheduler_cells}
use so_1920v_li41n.Synch.Event.Set.{AllWait, wake}
use so_1920v_li41n.ThreadResult.{
  World, res_waiters_of, stopped, ut_get_thread_result, ut_get_resumed, ut_exit, schedule_resumed,
}
use so_1920v_li41n.ThreadResult.Deliver.{handles}
use so_1920v_li41n.ThreadResult.Exit.{ut_exit-Exited}
use so_1920v_li41n.ThreadResult.Get.{ut_get_thread_result-stopped}

-- Where `c` asks for the result of `t`, which runs next, `c` stops and `t` runs. When `t` exits, `c` is
-- made ready and its call returns the result of `t`; but the descriptor of `t` is freed then, and
-- Schedule, where `c` goes on, writes to it.
pub asked-Exited :
    (main e t c res : Addr) (w : World) (ts bs : List Addr)
    → Beside main (res_waiters_of t) w.machine (running c (t ∷ ts) bs) []
    → c ≢ t
    → HasBlocks w.machine t
    → (w.result t).has_result ≡ false
    → has e (res_waiters_of t ∷ []) ≡ false
    → has e (scheduler_cells main w.machine (running c (t ∷ ts) bs)) ≡ false
    → (w1 : World) × (w2 : World) × (ut_get_thread_result e t w ≡ some (stopped, w1))
      × (w1.machine.running_thread ≡ t)
      × (ut_exit 1 res w1 ≡ some w2)
      × (ut_get_resumed e w2 ≡ res)
      × Refines main w2.machine (exit (wake (c ∷ []) (running t ts (bs ++ c ∷ []))))
      × (schedule_resumed t w2 ≡ none)
unfolding ut_get_resumed schedule_resumed
asked-Exited main e t c res w ts bs b other blocks fresh out away =
    let (w1, asked, handle, b1, allocated, stack, results) =
      ut_get_thread_result-stopped main e t c w (t ∷ ts) bs [] b other blocks.descriptor fresh out
        away in
    let fresh1 : (w1.result t).has_result ≡ false =
      ap (λ (r : Addr → _). (r t).has_result) results ∙ fresh in
    let blocks1 : HasBlocks w1.machine t = record {
      descriptor = ap (λ (f : Addr → _). f t) allocated ∙ blocks.descriptor;
      stack = rw (stack, allocated) blocks.stack;
      two = rw stack blocks.two;
    } in
    let waits : AllWait (handles w1.block (e ∷ [])) (bs ++ c ∷ []) =
      (rw handle (rw (has-append c bs (c ∷ [])) (ground arith)), tt) in
    let (w2, made, r, x) =
      ut_exit-Exited main t res ts (bs ++ c ∷ []) 1 w1 (e ∷ []) b1 blocks1 fresh1 (omega arith)
        waits in
    (
      w1,
      w2,
      asked,
      b1.refines.running,
      made,
      ground (arith, x.got e),
      subst
          (λ (x : Addr).
            Refines main w2.machine (exit (wake (x ∷ []) (running t ts (bs ++ c ∷ [])))))
          handle r,
      ground (arith, x.descriptor),
    )
