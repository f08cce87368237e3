-- ===== src/Uthread/Ready.antt =====
-- The scheduler's operations on the ready queue, in terms of the list that the queue holds.
use so_1920v_li41n.Prelude.{Option, none, some, ◌≡◌, refl, false, List, [], ◌∷◌, ◌++◌, arith, has}
use so_1920v_li41n.Ring.{Addr, container_of, remove_head_list}
use so_1920v_li41n.Ring.Chain.{IsRing}
use so_1920v_li41n.Ring.Insert.{
  SameOutside, is_list_empty-nil, is_list_empty-cons, insert_tail_list-IsRing,
}
use so_1920v_li41n.Ring.Remove.{remove_head_list-same, remove_head_list-IsRing}
use so_1920v_li41n.Uthread.{
  Machine, link_of, extract_next_thread, save_context, restore_context, context_switch, schedule,
  ut_activate,
}
use so_1920v_li41n.Uthread.Spec.{links_of, links_of-append, next, rest}

-- The ready queue holds the threads `ts`.
abbrev pub Queued : Machine → List Addr → Type 0
Queued m ts = IsRing m.links m.ready_queue (links_of ts)

pub extract_next_thread-nil :
    (m : Machine) → Queued m [] → extract_next_thread m ≡ (m.main_thread, m)
unfolding extract_next_thread
extract_next_thread-nil m r = rw (is_list_empty-nil r)

pub extract_next_thread-cons :
    (m : Machine) (t : Addr) (ts : List Addr)
    → Queued m (t ∷ ts)
    → extract_next_thread m ≡ (t, record m { links = (remove_head_list m.links m.ready_queue).1 })
unfolding extract_next_thread container_of
extract_next_thread-cons m t ts r =
    rw (is_list_empty-cons r) (ground (arith, (remove_head_list-IsRing r).0))

-- The machine `m'` has the same list cells, count and main thread as `m`, and runs `t`.
pub record Switched (t : Addr) (m m' : Machine) : Type 0 where
  pub links : m'.links ≡ m.links
  pub sentinel : m'.ready_queue ≡ m.ready_queue
  pub main : m'.main_thread ≡ m.main_thread
  pub number : m'.number_of_threads ≡ m.number_of_threads
  pub running : m'.running_thread ≡ t

pub context_switch-Switched : (a b : Addr) (m : Machine) → Switched b m (context_switch a b m)
unfolding context_switch save_context restore_context
context_switch-Switched a b m = record {
  links = refl;
  sentinel = refl;
  main = refl;
  number = refl;
  running = refl;
}

-- The thread that a specified state runs.
abbrev pub thread_of : Addr → Option Addr → Addr
thread_of main none = main
thread_of main (some t) = t

-- From a machine with the queue `ts`, `m'` runs the front of it.
pub record Dispatched (m : Machine) (ts : List Addr) (m' : Machine) : Type 0 where
  pub queue : Queued m' (rest ts)
  pub running : m'.running_thread ≡ thread_of m.main_thread (next ts)
  pub sentinel : m'.ready_queue ≡ m.ready_queue
  pub main : m'.main_thread ≡ m.main_thread
  pub number : m'.number_of_threads ≡ m.number_of_threads
  pub same : SameOutside (m.ready_queue ∷ links_of ts) m.links m'.links

pub Dispatched-nil :
    (m m' : Machine) → Queued m [] → Switched m.main_thread m m' → Dispatched m [] m'
Dispatched-nil m m' q s = record {
  queue = rw (s.links, s.sentinel) q;
  running = s.running;
  sentinel = s.sentinel;
  main = s.main;
  number = s.number;
  same = λ a out. rw s.links (refl, refl);
}

pub Dispatched-cons :
    (m m' : Machine) (t : Addr) (ts : List Addr)
    → Queued m (t ∷ ts)
    → Switched t (record m { links = (remove_head_list m.links m.ready_queue).1 }) m'
    → Dispatched m (t ∷ ts) m'
Dispatched-cons m m' t ts q s = record {
  queue = rw (s.links, s.sentinel) (remove_head_list-IsRing q).1;
  running = s.running;
  sentinel = s.sentinel;
  main = s.main;
  number = s.number;
  same = λ a out. rw s.links (remove_head_list-same q a (ground arith));
}

pub schedule-Dispatched :
    (m : Machine) (ts : List Addr) → Queued m ts → Dispatched m ts (schedule m)
unfolding schedule
schedule-Dispatched m [] q =
    rw (extract_next_thread-nil m q)
      (Dispatched-nil m _ q (context_switch-Switched m.running_thread m.main_thread m))
schedule-Dispatched m (t ∷ ts) q =
    rw (extract_next_thread-cons m t ts q)
      (Dispatched-cons m _ t ts q (context_switch-Switched m.running_thread t _))

-- An activated thread goes to the end of the queue.
pub ut_activate-Queued :
    (m : Machine) (t : Addr) (ts : List Addr)
    → Queued m ts
    → has (link_of t) (m.ready_queue ∷ links_of ts) ≡ false
    → Queued (ut_activate t m) (ts ++ t ∷ [])
unfolding ut_activate
ut_activate-Queued m t ts q out =
    rw (links_of-append ts (t ∷ [])) (insert_tail_list-IsRing (link_of t) q out)
