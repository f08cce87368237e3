-- ===== src/Synch/Examples.antt =====
-- Runs of the synchronizers on the machine of Uthread/Examples.antt: the wait block 700 is of the
-- thread 4000, which requests two units, and 710 of 5000, which requests five.
use so_1920v_li41n.Prelude.{
  ◌+◌, ◌≤◌, ◌≡◌, refl, true, false, some, [], ◌∷◌, ◌++◌, arith, ◌==◌, if◌then◌else◌,
}
use so_1920v_li41n.Ring.{Addr, is_list_empty}
use so_1920v_li41n.Uthread.{Machine}
use so_1920v_li41n.Uthread.Spec.{deactivate}
use so_1920v_li41n.Uthread.Examples.{main, machine, spec, machine-Refines}
use so_1920v_li41n.Synch.{WaitBlock}
use so_1920v_li41n.Synch.Waiters.{Beside}
use so_1920v_li41n.Synch.Event.{event_set, event_wait}
use so_1920v_li41n.Synch.Event.Set.{event_set-wake, event_wait_lem, wake}
use so_1920v_li41n.Synch.Semaphore.{sem_wait, sem_post, sem_post_earlier}
use so_1920v_li41n.Synch.Semaphore.Spec.{Served, requested, IsSettled}
use so_1920v_li41n.Synch.Semaphore.Post.{world, semaphore, Posted, sem_post-fifo}
use so_1920v_li41n.Synch.Semaphore.Wait.{Stopped, sem_wait_lem, sem_wait-IsSettled}
use so_1920v_li41n.Synch.Semaphore.Earlier.{sem_post_earlier-eq}

abbrev block : Addr → WaitBlock
block a =
    if a == 700
    then record { thread = 4000; units = 2 }
    else if a == 710
    then record { thread = 5000; units = 5 }
    else record { thread = 0; units = 0 }

machine-Beside : Beside main 600 machine spec (700 ∷ 710 ∷ [])
machine-Beside = record {
  refines = machine-Refines;
  ring = record {
    chain = (refl, refl, (refl, refl, (refl, refl)));
    distinct = (refl, (refl, (refl, tt)));
  };
  apart = (refl, (refl, (refl, tt)));
}

event_set-wake_example :
    (m' : Machine) × (event_set 3 (record { signaled = false; waiters = 600 }) (world machine block)
      ≡ some (record { signaled = true; waiters = 600 }, world m' block))
    × Beside main 600 m' (wake (4000 ∷ 5000 ∷ []) spec) (700 ∷ 710 ∷ [])
event_set-wake_example =
    event_set-wake main 600 3 false machine block spec (700 ∷ 710 ∷ []) machine-Beside (omega arith)
      (refl, (refl, tt))

event_wait_lem_example :
    let after = event_wait 720 (record { signaled = false; waiters = 600 }) (world machine block) in
    (after.0 ≡ record { signaled = false; waiters = 600 })
    × (((after.1.block 720).thread ≡ 2000)
        × Beside main 600 after.1.machine (deactivate spec) (700 ∷ 710 ∷ 720 ∷ []))
event_wait_lem_example =
    event_wait_lem main 600 false 720 (world machine block) 2000 (3000 ∷ []) (4000 ∷ 5000 ∷ [])
      (700 ∷ 710 ∷ []) machine-Beside refl refl

-- Four units are posted to the one there is: the first waiter goes, the second does not.
sem_post-fifo_example :
    (o : Served) × Posted main 600 10 block spec o
      (sem_post 3 (semaphore 600 1 10) 4 (world machine block))
    × (o.woken ++ o.waiting ≡ 700 ∷ 710 ∷ [])
    × (o.units ≤ 10)
    × (o.units + requested block o.woken ≡ 5)
    × IsSettled block o.units o.waiting
sem_post-fifo_example =
    sem_post-fifo main 600 10 block 3 1 4 machine spec (700 ∷ 710 ∷ []) machine-Beside (omega arith)
      (refl, (refl, tt)) (omega arith)

sem_post_earlier-eq_example :
    sem_post_earlier 3 (semaphore 600 1 10) 4 (world machine block)
    ≡ sem_post 3 (semaphore 600 1 10) 4 (world machine block)
sem_post_earlier-eq_example =
    sem_post_earlier-eq main 600 10 block 3 1 4 machine spec (700 ∷ 710 ∷ []) machine-Beside
      (omega arith) (refl, (refl, tt)) (omega arith, (omega arith, tt))

-- A call that finds others waiting stops, though there are units enough for it.
sem_wait_lem_example :
    let after = sem_wait 720 (semaphore 600 1 10) 1 (world machine block) in
    (after.0 ≡ semaphore 600 1 10)
    × Stopped main 600 720 1 2000 (3000 ∷ []) (4000 ∷ 5000 ∷ []) (700 ∷ 710 ∷ []) after.1
sem_wait_lem_example =
    sem_wait_lem main 600 10 720 1 1 (world machine block) 2000 (3000 ∷ []) (4000 ∷ 5000 ∷ [])
      (700 ∷ 710 ∷ []) machine-Beside refl refl

sem_wait-IsSettled_example :
    let after = sem_wait 720 (semaphore 600 1 10) 1 (world machine block) in
    (after.0.units ≤ 10) × IsSettled after.1.block after.0.units (700 ∷ 710 ∷ 720 ∷ [])
unfolding is_list_empty
sem_wait-IsSettled_example =
    sem_wait-IsSettled 600 10 720 1 1 (world machine block) (700 ∷ 710 ∷ []) refl refl (omega arith)
      (omega arith)
