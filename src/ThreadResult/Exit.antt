-- ===== src/ThreadResult/Exit.antt =====
-- UtExit, and the functions that give a thread's result.
use so_1920v_li41n.Prelude.{
  ℕ, ◌+◌, ◌-◌, ◌%◌, ◌^◌, ◌<◌, ◌≡◌, ◌∙◌, ap, refl, true, false, some, List, [], ◌∷◌, ◌++◌, arith,
  has, length, if◌then◌else◌, update, is_nil, append_assoc, append-nil, Bool-cases, inl, inr,
}
use mathlib.Core.Path.{subst, subst⁻¹}
use so_1920v_li41n.Ring.{Addr, Links, is_list_empty, remove_head_list}
use so_1920v_li41n.Ring.Insert.{is_list_empty-nil, is_list_empty-cons}
use so_1920v_li41n.Uthread.{Machine, extract_next_thread, restore_context}
use so_1920v_li41n.Uthread.Spec.{Spec, exit, remove}
use so_1920v_li41n.Uthread.Ready.{
  Queued, Switched, Dispatched, Dispatched-nil, Dispatched-cons, extract_next_thread-nil,
  extract_next_thread-cons,
}
use so_1920v_li41n.Uthread.Refine.{Refines, Refines-dispatch, running}
use so_1920v_li41n.Uthread.Lifetime.{HasBlocks}
use so_1920v_li41n.Synch.Waiters.{Beside}
use so_1920v_li41n.Synch.Event.Set.{AllWait, wake}
use so_1920v_li41n.ThreadResult.{
  ResWaitBlock, Result, World, res_waiters_of, cleanup_thread, internal_exit, deliver_loop, uncount,
  hand_over, ut_exit,
}
use so_1920v_li41n.ThreadResult.Deliver.{world, linked, handles, given, deliver_loop-wake}

-- The threads `ts` leave the list, one occurrence for each.
abbrev remove_all : List Addr → List Addr → List Addr
remove_all [] bs = bs
remove_all (t ∷ ts) bs = remove_all ts (remove t bs)

wake-running :
    (t : Addr) (woken ts bs : List Addr)
    → wake woken (running t ts bs) ≡ running t (ts ++ woken) (remove_all woken bs)
wake-running t [] ts bs = rw append-nil refl
wake-running t (x ∷ xs) ts bs =
    wake-running t xs (ts ++ x ∷ []) (remove x bs) ∙ rw append_assoc refl

-- What UtExit leaves: the stack of the thread is free; so is its descriptor if others waited for its
-- result, and each of them has it; otherwise the descriptor keeps the result.
pub record Exited (t res : Addr) (blocks : List Addr) (w w' : World) : Type 0 where
  pub stack : w'.machine.allocated (w.machine.thread t).stack ≡ false
  pub descriptor : w'.machine.allocated t ≡ is_nil blocks
  pub kept :
      w'.result t ≡ (if is_nil blocks then record { has_result = true; res = res } else w.result t)
  pub got : (a : Addr) → w'.block a ≡ (if has a blocks then given res (w.block a) else w.block a)

internal_exit-Switched :
    (t n : Addr) (w : World)
    → HasBlocks w.machine t
    → (w' : World) × (internal_exit t n w ≡ some w')
      × Switched n w.machine w'.machine
      × (w'.machine.allocated (w.machine.thread t).stack ≡ false)
      × (w'.machine.allocated t ≡ (w.result t).has_result)
      × (w'.result ≡ w.result)
      × (w'.block ≡ w.block)
unfolding internal_exit cleanup_thread restore_context
internal_exit-Switched t n w b =
    let m = w.machine in
    let freed = update m.allocated (m.thread t).stack false in
    elim (Bool-cases (w.result t).has_result) [
      | inl kept ↦ (
        record w {
          machine = restore_context n (record m { running_thread = n; allocated = freed });
        },
        ground (arith, b.descriptor, b.stack, b.two, kept),
        record { links = refl; sentinel = refl; main = refl; number = refl; running = refl },
        ground arith,
        ground (arith, b.two, b.descriptor, kept),
        refl,
        refl,
      )
      | inr unkept ↦ (
        record w {
          machine =
              restore_context n (record m { running_thread = n; allocated = update freed t false });
        },
        ground (arith, b.descriptor, b.stack, b.two, unkept),
        record { links = refl; sentinel = refl; main = refl; number = refl; running = refl },
        ground arith,
        ground (arith, unkept),
        refl,
        refl,
      )
    ]

-- The end of UtExit: the first ready thread runs.
internal_exit-Dispatched :
    (w : World) (t : Addr) (us : List Addr)
    → HasBlocks w.machine t
    → w.machine.running_thread ≡ t
    → Queued w.machine us
    → (w' : World) × ((let (next, m) = extract_next_thread w.machine in
          internal_exit m.running_thread next (record w { machine = m }))
        ≡ some w')
      × Dispatched w.machine us w'.machine
      × (w'.machine.allocated (w.machine.thread t).stack ≡ false)
      × (w'.machine.allocated t ≡ (w.result t).has_result)
      × (w'.result ≡ w.result)
      × (w'.block ≡ w.block)
internal_exit-Dispatched w t [] b e q =
    let (w', made, sw, stack, descriptor, results, blocks) =
      internal_exit-Switched t w.machine.main_thread w b in
    (
      w',
      rw (extract_next_thread-nil w.machine q)
          (ap (λ t. internal_exit t w.machine.main_thread w) e ∙ made),
      Dispatched-nil w.machine w'.machine q sw,
      stack,
      descriptor,
      results,
      blocks,
    )
internal_exit-Dispatched w t (u ∷ us) b e q =
    let m = w.machine in
    let w1 : World = record w { machine = linked m (remove_head_list m.links m.ready_queue).1 } in
    let (w', made, sw, stack, descriptor, results, blocks) =
      internal_exit-Switched t u w1
        (record { descriptor = b.descriptor; stack = b.stack; two = b.two }) in
    (
      w',
      rw (extract_next_thread-cons m u us q) (ap (λ t. internal_exit t u w1) e ∙ made),
      Dispatched-cons m w'.machine u us q sw,
      stack,
      descriptor,
      results,
      blocks,
    )

abbrev uncounted : Machine → ℕ
uncounted m = (m.number_of_threads + 2 ^ 64 - 1) % 2 ^ 64

abbrev with_result : ℕ → Addr → List Addr → (Addr → Result) → Addr → Result
with_result res t blocks result =
    if is_nil blocks then update result t (record { has_result = true; res = res }) else result

-- The choice of UtExit, where the thread `t` runs.
hand_over-running :
    (fuel res t : ℕ) (w : World)
    → w.machine.running_thread ≡ t
    → hand_over fuel res w ≡ (
        if is_list_empty w.machine.links (res_waiters_of t)
        then some
            (record w { result = update w.result t (record { has_result = true; res = res }) })
        else deliver_loop fuel (res_waiters_of t) res w)
unfolding hand_over
hand_over-running fuel res t w e =
    ap
      (λ (k : Addr).
        if is_list_empty w.machine.links (res_waiters_of k)
        then some
            (record w { result = update w.result k (record { has_result = true; res = res }) })
        else deliver_loop fuel (res_waiters_of k) res w)
      e

module _ (main t res : Addr) (ts bs : List Addr) where
  hand_over-wake :
      (fuel : ℕ) (w : World) (blocks : List Addr)
      → Beside main (res_waiters_of t) w.machine (running t ts bs) blocks
      → length blocks < fuel + 1
      → AllWait (handles w.block blocks) bs
      → (links : Links) × (block' : Addr → ResWaitBlock) × (hand_over fuel res (uncount w)
          ≡ some (
              world
                (uncounted w.machine)
                (linked w.machine links)
                block'
                (with_result res t blocks w.result)))
        × Refines main (linked w.machine links) (wake (handles w.block blocks) (running t ts bs))
        × ((a : Addr) → block' a ≡ (if has a blocks then given res (w.block a) else w.block a))
  unfolding hand_over
  hand_over-wake fuel w [] b enough waits = (
    w.machine.links,
    w.block,
    hand_over-running fuel res t (uncount w) b.refines.running ∙ rw (is_list_empty-nil b.ring) refl,
    b.refines,
    λ a. refl,
  )
  hand_over-wake fuel w (x ∷ xs) b enough waits =
      let (links, block', done, b', got) =
        deliver_loop-wake main (res_waiters_of t) res (uncounted w.machine) w.result fuel w.machine
          w.block (running t ts bs) x xs b (omega arith) waits in
      (
        links,
        block',
        hand_over-running fuel res t (uncount w) b.refines.running
            ∙ rw (is_list_empty-cons b.ring) done,
        b'.refines,
        got,
      )

  -- UtExit ends the running thread, where it has its two allocated blocks and no result yet. The
  -- threads that wait for its result become ready, in the order in which they came, each with the
  -- result in its wait block, and the next ready thread runs. The descriptor stays allocated, with
  -- the result in it, exactly where nobody waits. Fuel for the waiters is enough.
  pub ut_exit-Exited :
      (fuel : ℕ) (w : World) (blocks : List Addr)
      → Beside main (res_waiters_of t) w.machine (running t ts bs) blocks
      → HasBlocks w.machine t
      → (w.result t).has_result ≡ false
      → length blocks < fuel + 1
      → AllWait (handles w.block blocks) bs
      → (w' : World) × (ut_exit fuel res w ≡ some w')
        × Refines main w'.machine (exit (wake (handles w.block blocks) (running t ts bs)))
        × Exited t res blocks w w'
  unfolding ut_exit
  ut_exit-Exited fuel w blocks b has_blocks fresh enough waits =
      let woken = handles w.block blocks in
      let shape = wake-running t woken ts bs in
      let us = ts ++ woken in
      let left = remove_all woken bs in
      let (links, block', handed, r0, got) = hand_over-wake fuel w blocks b enough waits in
      let r = subst (λ s. Refines main (linked w.machine links) s) shape r0 in
      let w1 =
        world (uncounted w.machine) (linked w.machine links) block'
          (with_result res t blocks w.result) in
      let (w', made, d, stack, descriptor, results, same) =
        internal_exit-Dispatched w1 t us
          (record {
            descriptor = has_blocks.descriptor;
            stack = has_blocks.stack;
            two = has_blocks.two;
          })
          r.running r.queue in
      (
        w',
        rw (ut_exit, handed) made,
        subst⁻¹ (λ (s : Spec). Refines main w'.machine (exit s)) shape
            (Refines-dispatch main w1.machine w'.machine us left d r.main_thread
              (omega (arith, r.number, r.fits)) (omega (arith, r.fits))
              (λ a. ground (arith, r.once a))),
        record {
          stack = stack;
          descriptor = ground (arith, descriptor, fresh);
          kept = ground (arith, results);
          got = λ a. ap (λ (f : Addr → ResWaitBlock). f a) same ∙ got a;
        },
      )
