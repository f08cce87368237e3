-- ===== src/Synch/Event/Set.antt =====
-- event_wait and event_set against the scheduler's specification.
use so_1920v_li41n.Prelude.{
  ◌∙◌, ap, append_assoc, ==-self, has-append, ℕ, zero, suc, ◌<◌, ◌≡◌, refl, Bool, true, false, some,
  List, [], ◌∷◌, ◌++◌, arith, has, ◌==◌, length, if◌then◌else◌,
}
use so_1920v_li41n.Ring.{Addr}
use so_1920v_li41n.Ring.Chain.{container_of-zero, IsChain-split, IsChain-flink, first}
use so_1920v_li41n.Uthread.{Machine, ut_activate, ut_self}
use so_1920v_li41n.Uthread.Spec.{Spec, activate, deactivate, remove}
use so_1920v_li41n.Uthread.Refine.{running}
use so_1920v_li41n.Synch.{WaitBlock, World, init_waitblock}
use so_1920v_li41n.Synch.Event.{Event, event_wait, event_set_loop, event_set}
use so_1920v_li41n.Synch.Waiters.{
  Beside, scheduler_cells, activate-Beside, enqueue_and_stop-Beside, enqueue_and_stop-block,
}

abbrev pub threads_of : (Addr → WaitBlock) → List Addr → List Addr
threads_of block [] = []
threads_of block (b ∷ bs) = (block b).thread ∷ threads_of block bs

-- The threads `ts` wait, each for an activation of its own.
abbrev pub AllWait : List Addr → List Addr → Type 0
AllWait [] bs = Unit
AllWait (t ∷ ts) bs = (has t bs ≡ true) × AllWait ts (remove t bs)

-- The threads `ts` are activated, one after the other.
abbrev pub wake : List Addr → Spec → Spec
wake [] s = s
wake (t ∷ ts) s = wake ts (activate t s)

event_set_loop-step :
    (fuel : ℕ) (h x : Addr) (w : World)
    → (x == h) ≡ false
    → event_set_loop (suc fuel) h x w ≡ (
        let m = ut_activate (w.block x).thread w.machine in
        event_set_loop fuel h (m.links.flink x) (record w { machine = m }))
unfolding event_set_loop
event_set_loop-step fuel h x w other = rw (other, event_set_loop, container_of-zero x)

module _ (main h : Addr) (block : Addr → WaitBlock) where
  event_set_loop-wake :
      (fuel : ℕ) (m : Machine) (s : Spec) (pre post : List Addr)
      → Beside main h m s (pre ++ post)
      → length post < fuel
      → AllWait (threads_of block post) s.blocked
      → (m' : Machine) × (event_set_loop fuel h
            (first post h)
            (record { machine = m; block = block })
          ≡ some (record { machine = m'; block = block }))
        × Beside main h m' (wake (threads_of block post) s) (pre ++ post)
  unfolding event_set_loop
  event_set_loop-wake zero m s pre post b enough waits = absurd (omega arith)
  event_set_loop-wake (suc fuel) m s pre [] b enough waits = (m, rw (==-self h, event_set_loop), b)
  event_set_loop-wake (suc fuel) m s pre (x ∷ xs) b enough waits =
      let t = (block x).thread in
      let m1 = ut_activate t m in
      let b1 : Beside main h m1 (activate t s) (pre ++ x ∷ xs) =
        activate-Beside main h m t s (pre ++ x ∷ xs) b waits.0 in
      let (before, after) = IsChain-split m1.links h pre x xs h b1.ring.chain in
      let (m', done, b') =
        event_set_loop-wake fuel m1 (activate t s) (pre ++ x ∷ []) xs
          (rw (append_assoc pre (x ∷ []) xs) b1) (omega arith) waits.1 in
      let other : (x == h) ≡ false = ground (arith, b.ring.distinct.0, has-append h pre (x ∷ xs)) in
      (
        m',
        event_set_loop-step fuel h x (record { machine = m; block = block }) other
            ∙ ap (λ c. event_set_loop fuel h c (record { machine = m1; block = block }))
                (IsChain-flink m1.links x xs h after)
            ∙ done,
        rw (append_assoc pre (x ∷ []) xs) at b',
      )

module _ (main h : Addr) where
  -- `event_set` marks the event and activates the threads of all its wait blocks, first come first
  -- served, given fuel for the length of the list. The wait blocks stay in the list.
  pub event_set-wake :
      (fuel : ℕ) (set : Bool) (m : Machine) (block : Addr → WaitBlock) (s : Spec)
      (blocks : List Addr)
      → Beside main h m s blocks
      → length blocks < fuel
      → AllWait (threads_of block blocks) s.blocked
      → (m' : Machine) × (event_set fuel
            (record { signaled = set; waiters = h })
            (record { machine = m; block = block })
          ≡ some (record { signaled = true; waiters = h }, record { machine = m'; block = block }))
        × Beside main h m' (wake (threads_of block blocks) s) blocks
  unfolding event_set
  event_set-wake fuel set m block s blocks b enough waits =
      let (m', done, b') = event_set_loop-wake main h block fuel m s [] blocks b enough waits in
      (m', rw (IsChain-flink m.links h blocks h b.ring.chain, done, event_set), b')

  -- On an event that is set `event_wait` returns at once. On another it records the running thread
  -- in its wait block, puts the block behind the others and stops the thread.
  pub event_wait_lem :
      (set : Bool) (wblock : Addr) (w : World) (t : Addr) (ts bs blocks : List Addr)
      → Beside main h w.machine (running t ts bs) blocks
      → has wblock (h ∷ blocks) ≡ false
      → has wblock (scheduler_cells main w.machine (running t ts bs)) ≡ false
      → let event : Event = record { signaled = set; waiters = h } in
        let after = event_wait wblock event w in
        (after.0 ≡ event)
        × (if set
            then after.1 ≡ w
            else (((after.1.block wblock).thread ≡ t)
                × Beside main h after.1.machine
                    (deactivate (running t ts bs))
                    (blocks ++ wblock ∷ [])))
  unfolding event_wait init_waitblock ut_self
  event_wait_lem true e w t ts bs blocks b out away = (refl, refl)
  event_wait_lem false e w t ts bs blocks b out away = (
    refl,
    (
      rw enqueue_and_stop-block (ground (arith, b.refines.running)),
      enqueue_and_stop-Beside main h e (init_waitblock e w) t ts bs blocks b out away,
    ),
  )
