-- ===== src/Uthread/Refine.antt =====
-- The scheduler's operations refine their specification: each takes a machine that stands for a
-- specified state to one that stands for the next state.
use so_1920v_li41n.Prelude.{
  ap, ◌∙◌, ◌^◌, ◌≤◌, ◌<◌, ◌≡◌, false, some, List, [], ◌∷◌, ◌++◌, arith, has, count, has_of_count,
  length, length-append,
}
use so_1920v_li41n.Ring.{Addr, is_list_empty}
use so_1920v_li41n.Ring.Insert.{is_list_empty-nil, is_list_empty-cons}
use so_1920v_li41n.Uthread.{Machine, link_of, schedule, ut_yield, ut_activate, ut_deactivate}
use so_1920v_li41n.Uthread.Spec.{
  Spec, links_of, users, users-dispatch, count-links_of-append, dispatch, yield, deactivate,
}
use so_1920v_li41n.Uthread.Ready.{
  Queued, Dispatched, schedule-Dispatched, ut_activate-Queued, thread_of,
}

-- The machine `m`, whose main thread is `main`, stands for the specified state `s`.
pub record Refines (main : Addr) (m : Machine) (s : Spec) : Type 0 where
  pub queue : Queued m s.ready
  pub running : m.running_thread ≡ thread_of main s.running
  pub main_thread : m.main_thread ≡ main
  pub number : m.number_of_threads ≡ length (users s)
  pub fits : length (users s) < 2 ^ 64
  pub once : (a : Addr) → count a (m.ready_queue ∷ links_of (main ∷ users s)) ≤ 1

-- The user thread `t` runs, `ts` are ready and `bs` wait.
abbrev pub running : Addr → List Addr → List Addr → Spec
running t ts bs = record { running = some t; ready = ts; blocked = bs }

module _ (main : Addr) where
  pub Refines-dispatch :
      (m m' : Machine) (ts bs : List Addr)
      → Dispatched m ts m'
      → m.main_thread ≡ main
      → m.number_of_threads ≡ length (ts ++ bs)
      → length (ts ++ bs) < 2 ^ 64
      → ((a : Addr) → count a (m.ready_queue ∷ links_of (main ∷ ts ++ bs)) ≤ 1)
      → Refines main m' (dispatch ts bs)
  Refines-dispatch m m' ts bs d is_main number fits once = record {
    queue = d.queue;
    running = rw (← is_main) d.running;
    main_thread = d.main ∙ is_main;
    number = rw users-dispatch (d.number ∙ number);
    fits = rw users-dispatch fits;
    once = λ a. rw (d.sentinel, users-dispatch) (once a);
  }

  module _ (m : Machine) (t : Addr) (ts bs : List Addr) where
    enqueue-once :
        Refines main m (running t ts bs) → has (link_of t) (m.ready_queue ∷ links_of ts) ≡ false
    enqueue-once r =
        has_of_count (link_of t) (m.ready_queue ∷ links_of ts)
          (ground (arith, r.once (link_of t), count-links_of-append (link_of t) ts bs))

    -- The machine `m` with `t` put behind the ready queue.
    pub ut_activate-Dispatched :
        Refines main m (running t ts bs)
        → Dispatched (ut_activate t m) (ts ++ t ∷ []) (schedule (ut_activate t m))
    ut_activate-Dispatched r =
        schedule-Dispatched (ut_activate t m) (ts ++ t ∷ [])
          (ut_activate-Queued m t ts r.queue (enqueue-once r))

    Refines-yield_dispatch :
        (m' : Machine)
        → Refines main m (running t ts bs)
        → Dispatched (ut_activate t m) (ts ++ t ∷ []) m'
        → Refines main m' (yield (running t ts bs))
    unfolding ut_activate
    Refines-yield_dispatch m' r d =
        Refines-dispatch (ut_activate t m) m' (ts ++ t ∷ []) bs d r.main_thread
          (omega (
            arith,
            r.number,
            length-append ts bs,
            length-append (ts ++ t ∷ []) bs,
            length-append ts (t ∷ []),
          ))
          (omega (
            arith,
            r.fits,
            length-append ts bs,
            length-append (ts ++ t ∷ []) bs,
            length-append ts (t ∷ []),
          ))
          (λ a. ground (
            arith,
            r.once a,
            count-links_of-append a ts bs,
            count-links_of-append a (ts ++ t ∷ []) bs,
            count-links_of-append a ts (t ∷ []),
          ))

  ut_yield-eq :
      (m : Machine) (t : Addr)
      → is_list_empty m.links m.ready_queue ≡ false
      → m.running_thread ≡ t
      → ut_yield m ≡ schedule (ut_activate t m)
  unfolding ut_yield ut_activate
  ut_yield-eq m t busy e = rw busy (ap (λ t. schedule (ut_activate t m)) e)

  -- `ut_yield` puts the running thread behind the ready ones and runs the first of them; it changes
  -- nothing if none is ready.
  pub ut_yield-Refines :
      (m : Machine) (t : Addr) (ts bs : List Addr)
      → Refines main m (running t ts bs)
      → Refines main (ut_yield m) (yield (running t ts bs))
  unfolding ut_yield
  ut_yield-Refines m t [] bs r = rw (is_list_empty-nil r.queue) r
  ut_yield-Refines m t (u ∷ us) bs r =
      rw (ut_yield-eq m t (is_list_empty-cons r.queue) r.running)
        (Refines-yield_dispatch m t (u ∷ us) bs _ r (ut_activate-Dispatched m t (u ∷ us) bs r))

  -- `ut_deactivate` stops the running thread; the first ready thread runs, or the main thread.
  pub ut_deactivate-Refines :
      (m : Machine) (t : Addr) (ts bs : List Addr)
      → Refines main m (running t ts bs)
      → Refines main (ut_deactivate m) (deactivate (running t ts bs))
  unfolding ut_deactivate
  ut_deactivate-Refines m t ts bs r =
      Refines-dispatch m (schedule m) ts (bs ++ t ∷ []) (schedule-Dispatched m ts r.queue)
        r.main_thread
        (omega (
          arith,
          r.number,
          length-append ts bs,
          length-append ts (bs ++ t ∷ []),
          length-append bs (t ∷ []),
        ))
        (omega (
          arith,
          r.fits,
          length-append ts bs,
          length-append ts (bs ++ t ∷ []),
          length-append bs (t ∷ []),
        ))
        (λ a. ground (
          arith,
          r.once a,
          count-links_of-append a ts bs,
          count-links_of-append a ts (bs ++ t ∷ []),
          count-links_of-append a bs (t ∷ []),
        ))
