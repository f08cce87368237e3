-- ===== src/Synch.antt =====
-- The synchronizers of uthreads/uthread: waitblock.h, event.c and semaphore.c.
-- A world is the scheduler's machine with the wait blocks, which lie on the stacks of the threads
-- that wait. The address of a wait block is an argument of the operation that declares it.
pub mod Event
mod Examples
pub mod Semaphore
pub mod Waiters
use so_1920v_li41n.Prelude.{ℕ, update}
use so_1920v_li41n.Ring.{Addr, insert_tail_list}
use so_1920v_li41n.Uthread.{Machine, ut_self, ut_deactivate}

-- WAIT_BLOCK without its `link`, and the field that SEMAPHORE_WAIT_BLOCK adds.
pub record WaitBlock : Type 0 where
  pub thread : Addr
  pub units : ℕ

pub record World : Type 0 where
  pub machine : Machine
  pub block : Addr → WaitBlock

unfoldable pub init_waitblock : Addr → World → World
init_waitblock waitblock w = record w {
  block = update w.block waitblock (record (w.block waitblock) { thread = ut_self w.machine });
}

-- `insert_tail_list(&waiters, &waitblock.link); ut_deactivate();`
unfoldable pub enqueue_and_stop : Addr → Addr → World → World
enqueue_and_stop waiters waitblock w =
    let m = w.machine in
    record w {
      machine = ut_deactivate (record m { links = insert_tail_list m.links waiters waitblock });
    }
