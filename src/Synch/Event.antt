-- ===== src/Synch/Event.antt =====
-- uthreads/uthread/event.c: an event that is set once, and the threads that wait for it.
pub mod Set
use so_1920v_li41n.Prelude.{
  ℕ, zero, suc, Bool, true, false, Option, none, some, ◌==◌, if◌then◌else◌,
}
use so_1920v_li41n.Ring.{Addr, init_list_head, container_of}
use so_1920v_li41n.Uthread.{Machine, ut_activate}
use so_1920v_li41n.Synch.{World, init_waitblock, enqueue_and_stop}

-- EVENT; `waiters` is the address of that field.
pub record Event : Type 0 where
  pub signaled : Bool
  pub waiters : Addr

unfoldable pub event_init : Event → World → Event × World
event_init event w =
    let m = w.machine in
    (
      record event { signaled = false },
      record w { machine = record m { links = init_list_head m.links event.waiters } },
    )

unfoldable pub event_value : Event → Bool
event_value event = event.signaled

unfoldable pub event_wait : Addr → Event → World → Event × World
event_wait wblock event w =
    if event.signaled
    then (event, w)
    else (event, enqueue_and_stop event.waiters wblock (init_waitblock wblock w))

-- The `for` loop over the wait blocks; `none` means that the fuel ran out.
pub event_set_loop : ℕ → (waiters curr : Addr) → World → Option World
event_set_loop zero waiters curr w = none
event_set_loop (suc fuel) waiters curr w = elim (curr == waiters) [
  | true ↦ some w
  | false ↦
      let pwblock = container_of curr 0 in
      let m = ut_activate (w.block pwblock).thread w.machine in
      event_set_loop fuel waiters (m.links.flink curr) (record w { machine = m })
]

unfoldable pub event_set : ℕ → Event → World → Option (Event × World)
event_set fuel event w =
    elim (event_set_loop fuel event.waiters (w.machine.links.flink event.waiters) w) [
      | none ↦ none
      | some w' ↦ some (record event { signaled = true }, w')
    ]
