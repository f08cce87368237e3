-- ===== src/Synch/Semaphore/Wait.antt =====
-- sem_wait against the scheduler's specification; what every operation on a semaphore keeps.
use so_1920v_li41n.Prelude.{
  ◌≢◌, ℕ, ◌-◌, ◌≤◌, ◌≡◌, refl, Bool, true, false, ◌&&◌, List, [], ◌∷◌, ◌++◌, arith, has,
  if◌then◌else◌, leb, is_nil, inl, inr, Bool-cases,
}
use so_1920v_li41n.Ring.{Addr, is_list_empty}
use so_1920v_li41n.Ring.Insert.{is_list_empty-is_nil}
use so_1920v_li41n.Uthread.{ut_self}
use so_1920v_li41n.Uthread.Spec.{deactivate}
use so_1920v_li41n.Uthread.Refine.{running}
use so_1920v_li41n.Synch.{WaitBlock, World, init_waitblock, enqueue_and_stop}
use so_1920v_li41n.Synch.Waiters.{
  Beside, scheduler_cells, enqueue_and_stop-Beside, enqueue_and_stop-block,
}
use so_1920v_li41n.Synch.Semaphore.{sem_wait, init_sem_waitblock}
use so_1920v_li41n.Synch.Semaphore.Spec.{IsSettled}
use so_1920v_li41n.Synch.Semaphore.Post.{semaphore}

-- The running thread waits, and its wait block `e` records it and its request.
abbrev pub Stopped : (main h : Addr) (e n t : ℕ) (ts bs blocks : List Addr) → World → Type 0
Stopped main h e n t ts bs blocks w' =
    ((w'.block e).thread ≡ t)
    × ((w'.block e).units ≡ n)
    × Beside main h w'.machine (deactivate (running t ts bs)) (blocks ++ e ∷ [])

-- The loop's condition of `sem_wait`: nobody waits and there are units enough.
abbrev pub at_once : ℕ → ℕ → List Addr → Bool
at_once n units blocks = is_nil blocks && leb n units

module _ (main h limit : ℕ) where
  Stopped-enqueue :
      (e n : ℕ) (w : World) (t : Addr) (ts bs blocks : List Addr)
      → Beside main h w.machine (running t ts bs) blocks
      → has e (h ∷ blocks) ≡ false
      → has e (scheduler_cells main w.machine (running t ts bs)) ≡ false
      → Stopped main h e n t ts bs blocks (enqueue_and_stop h e (init_sem_waitblock e n w))
  unfolding init_sem_waitblock init_waitblock ut_self
  Stopped-enqueue e n w t ts bs blocks b out away = (
    rw enqueue_and_stop-block (ground (arith, b.refines.running)),
    rw enqueue_and_stop-block (ground arith),
    enqueue_and_stop-Beside main h e (init_sem_waitblock e n w) t ts bs blocks b out away,
  )

  -- `sem_wait` takes the units and goes on if nobody waits and there are enough; otherwise it takes
  -- none, and the running thread stops at the end of the list of waiters.
  pub sem_wait_lem :
      (e n units : ℕ) (w : World) (t : Addr) (ts bs blocks : List Addr)
      → Beside main h w.machine (running t ts bs) blocks
      → has e (h ∷ blocks) ≡ false
      → has e (scheduler_cells main w.machine (running t ts bs)) ≡ false
      → let after = sem_wait e (semaphore h units limit) n w in
        if at_once n units blocks
        then after ≡ (semaphore h (units - n) limit, w)
        else (after.0 ≡ semaphore h units limit) × Stopped main h e n t ts bs blocks after.1
  unfolding sem_wait
  sem_wait_lem e n units w t ts bs blocks b out away =
      rw (is_list_empty-is_nil blocks b.ring) (elim (Bool-cases (at_once n units blocks)) [
        | inl now ↦ rw now
        | inr later ↦ rw later (refl, Stopped-enqueue e n w t ts bs blocks b out away)
      ])

IsSettled-snoc :
    (block block' : Addr → WaitBlock) (e units : ℕ) (blocks : List Addr)
    → IsSettled block units blocks
    → at_once (block' e).units units blocks ≡ false
    → ((b : Addr) → has b blocks ≡ true → block' b ≡ block b)
    → IsSettled block' units (blocks ++ e ∷ [])
IsSettled-snoc block block' e units [] i later same = ground arith
IsSettled-snoc block block' e units (b ∷ bs) i later same = ground (arith, same b)

IsSettled-nil :
    (block : Addr → WaitBlock) (left n units : ℕ) (blocks : List Addr)
    → at_once n units blocks ≡ true
    → IsSettled block left blocks
IsSettled-nil block left n units [] now = tt
IsSettled-nil block left n units (b ∷ bs) now = cc

init_sem_waitblock-units : (e n : ℕ) (w : World) → ((init_sem_waitblock e n w).block e).units ≡ n
unfolding init_sem_waitblock
init_sem_waitblock-units e n w = ground arith

init_sem_waitblock-other :
    (e n : ℕ) (w : World) (b : Addr) → b ≢ e → (init_sem_waitblock e n w).block b ≡ w.block b
unfolding init_sem_waitblock init_waitblock
init_sem_waitblock-other e n w b ne = ground arith

module _ (h limit : ℕ) where
  -- `sem_wait` never takes more units than there are. If no unit was left before, or fewer than the first
  -- waiter of the list `blocks` requests, that holds with the list behind the call.
  pub sem_wait-IsSettled :
      (e n units : ℕ) (w : World) (blocks : List Addr)
      → is_list_empty w.machine.links h ≡ is_nil blocks
      → has e (h ∷ blocks) ≡ false
      → units ≤ limit
      → IsSettled w.block units blocks
      → let after = sem_wait e (semaphore h units limit) n w in
        (after.0.units ≤ limit)
        × IsSettled after.1.block after.0.units
            (if at_once n units blocks then blocks else blocks ++ e ∷ [])
  unfolding sem_wait
  sem_wait-IsSettled e n units w blocks empty out bound settled =
      rw empty (elim (Bool-cases (at_once n units blocks)) [
        | inl now ↦ rw now (omega arith, IsSettled-nil w.block (units - n) n units blocks now)
        | inr later ↦
            rw (later, enqueue_and_stop-block)
              (
                bound,
                IsSettled-snoc w.block _ e units blocks settled (rw init_sem_waitblock-units later)
                    (λ b i. init_sem_waitblock-other e n w b (ground arith)),
              )
      ])
