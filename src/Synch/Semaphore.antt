-- ===== src/Synch/Semaphore.antt =====
-- uthreads/uthread/semaphore.c, and its earlier version aula-05-04/uthreads/uthread/semaphore.c.
-- Units, limits and requests are `int`s that count units: they are numbers below 2 ^ 31, and an
-- addition that would pass `INT_MAX` is undefined.
pub mod Spec
pub mod Post
pub mod Earlier
pub mod Wait
use so_1920v_li41n.Prelude.{
  ℕ, zero, suc, ◌+◌, ◌-◌, ◌^◌, Bool, true, false, ◌&&◌, not, Option, none, some, ◌==◌, ltb, leb,
  if◌then◌else◌, update,
}
use so_1920v_li41n.Ring.{Addr, init_list_head, is_list_empty, remove_head_list, container_of}
use so_1920v_li41n.Uthread.{Machine, ut_activate}
use so_1920v_li41n.Synch.{World, init_waitblock, enqueue_and_stop}

-- SEMAPHORE; `waiters` is the address of that field.
pub record Semaphore : Type 0 where
  pub waiters : Addr
  pub units : ℕ
  pub limit : ℕ

unfoldable pub init_sem_waitblock : Addr → ℕ → World → World
init_sem_waitblock sem_wblock units w =
    let w = init_waitblock sem_wblock w in
    record w { block = update w.block sem_wblock (record (w.block sem_wblock) { units = units }) }

unfoldable pub sem_init : Semaphore → (units limit : ℕ) → World → Semaphore × World
sem_init sem units limit w =
    let m = w.machine in
    (
      record sem { units = units; limit = limit },
      record w { machine = record m { links = init_list_head m.links sem.waiters } },
    )

unfoldable pub sem_wait : Addr → Semaphore → ℕ → World → Semaphore × World
sem_wait waitblock sem units w =
    if is_list_empty w.machine.links sem.waiters && leb units sem.units
    then (record sem { units = sem.units - units }, w)
    else (sem, enqueue_and_stop sem.waiters waitblock (init_sem_waitblock waitblock units w))

-- `remove_head_list(waiters); ut_activate(waitblock->header.thread);`
unfoldable pub release_head : Addr → Addr → World → World
release_head waiters waitblock w =
    let m = w.machine in
    let m = record m { links = (remove_head_list m.links waiters).1 } in
    record w { machine = ut_activate (w.block waitblock).thread m }

-- The `while` loop of `sem_post`; `none` means that the fuel ran out.
pub sem_post_loop : ℕ → Semaphore → World → Option (Semaphore × World)
sem_post_loop zero sem w = none
sem_post_loop (suc fuel) sem w =
    let entry = w.machine.links.flink sem.waiters in
    let waitblock = container_of entry 0 in
    elim (ltb 0 sem.units && not (entry == sem.waiters)) [
      | false ↦ some (sem, w)
      | true ↦ elim (ltb sem.units (w.block waitblock).units) [
        | true ↦ some (sem, w)
        | false ↦
            sem_post_loop fuel (record sem { units = sem.units - (w.block waitblock).units })
              (release_head sem.waiters waitblock w)
      ]
    ]

-- `sem->units += units`, cut to the limit.
unfoldable pub add_units : Semaphore → ℕ → Semaphore
add_units sem units = record sem {
  units = if ltb sem.limit (sem.units + units) then sem.limit else sem.units + units;
}

unfoldable pub sem_post : ℕ → Semaphore → ℕ → World → Option (Semaphore × World)
sem_post fuel sem units w =
    if ltb (sem.units + units) (2 ^ 31) then sem_post_loop fuel (add_units sem units) w else none

-- The loop of the earlier version, which keeps its cursor in the wait block that it has removed.
pub sem_post_loop_earlier : ℕ → Addr → Semaphore → World → Option (Semaphore × World)
sem_post_loop_earlier zero curr sem w = none
sem_post_loop_earlier (suc fuel) curr sem w =
    let pblock = container_of curr 0 in
    elim (not (curr == sem.waiters) && leb (w.block pblock).units sem.units) [
      | false ↦ some (sem, w)
      | true ↦
          let w' = release_head sem.waiters pblock w in
          sem_post_loop_earlier fuel (w'.machine.links.flink curr)
            (record sem { units = sem.units - (w.block pblock).units }) w'
    ]

unfoldable pub sem_post_earlier : ℕ → Semaphore → ℕ → World → Option (Semaphore × World)
sem_post_earlier fuel sem units w =
    if ltb (sem.units + units) (2 ^ 31)
    then sem_post_loop_earlier fuel (w.machine.links.flink sem.waiters) (add_units sem units) w
    else none
