-- ===== src/Synch/Waiters.antt =====
-- A synchronizer's list of waiters beside the scheduler: the two share the memory of the links, and
-- neither operation disturbs the other's list.
use so_1920v_li41n.Prelude.{
  ◌≡◌, refl, true, false, List, [], ◌∷◌, ◌++◌, arith, has, Apart, Apart-has, Apart-of_has, count,
  count_of_has, has_of_count, has-append,
}
use so_1920v_li41n.Ring.{Addr, remove_head_list, insert_tail_list}
use so_1920v_li41n.Ring.Chain.{IsRing}
use so_1920v_li41n.Ring.Insert.{IsRing-frame, insert_tail_list-IsRing, insert_tail_list-same}
use so_1920v_li41n.Ring.Remove.{remove_head_list-IsRing, remove_head_list-same}
use so_1920v_li41n.Uthread.{Machine, link_of, ut_activate, ut_deactivate}
use so_1920v_li41n.Synch.{World, enqueue_and_stop}
use so_1920v_li41n.Uthread.Spec.{
  Spec, links_of, users, activate, deactivate, count-links_of-append, count-dispatch,
}
use so_1920v_li41n.Uthread.Ready.{schedule-Dispatched}
use so_1920v_li41n.Uthread.Refine.{Refines, running, ut_deactivate-Refines}
use so_1920v_li41n.Uthread.Lifetime.{ut_activate-Refines, count-users, count-remove, count-activate}

-- The cells that the scheduler may write.
abbrev pub scheduler_cells : Addr → Machine → Spec → List Addr
scheduler_cells main m s = m.ready_queue ∷ links_of (main ∷ users s)

-- The scheduler is in the state `s`, and the list at `h` holds the wait blocks `blocks`.
pub record Beside (main h : Addr) (m : Machine) (s : Spec) (blocks : List Addr) : Type 0 where
  pub refines : Refines main m s
  pub ring : IsRing m.links h blocks
  pub apart : Apart (h ∷ blocks) (scheduler_cells main m s)

pub Apart-sym : (xs ys : List Addr) → Apart xs ys → Apart ys xs
Apart-sym xs ys d = Apart-of_has ys xs λ a i. ground (arith, Apart-has xs ys d a)

Apart-count :
    (xs ys zs : List Addr)
    → Apart xs ys
    → ((a : Addr) → count a ys ≡ 0 → count a zs ≡ 0)
    → Apart xs zs
Apart-count xs ys zs d le =
    Apart-of_has xs zs λ a i. has_of_count a zs (le a (count_of_has a ys (Apart-has xs ys d a i)))

module _ (main h : Addr) (m : Machine) where
  pub activate-Beside :
      (t : Addr) (s : Spec) (blocks : List Addr)
      → Beside main h m s blocks
      → has t s.blocked ≡ true
      → Beside main h (ut_activate t m) (activate t s) blocks
  unfolding ut_activate
  activate-Beside t s blocks b waits = record {
    refines = ut_activate-Refines main m t s b.refines waits;
    ring =
        IsRing-frame (link_of t ∷ m.ready_queue ∷ links_of s.ready) b.ring
          (insert_tail_list-same (link_of t) b.refines.queue)
          (Apart-count (h ∷ blocks) (scheduler_cells main m s)
            (link_of t ∷ m.ready_queue ∷ links_of s.ready) b.apart
            (λ a z. ground (arith, count-users a s, count-remove a t s.blocked waits)));
    apart =
        Apart-count (h ∷ blocks) (scheduler_cells main m s) (scheduler_cells main m (activate t s))
          b.apart (λ a z. ground (arith, count-activate a t s waits));
  }

  pub remove_head-Beside :
      (s : Spec) (x : Addr) (xs : List Addr)
      → Beside main h m s (x ∷ xs)
      → Beside main h (record m { links = (remove_head_list m.links h).1 }) s xs
  remove_head-Beside s x xs b = record {
    refines = record {
      queue = IsRing-frame (h ∷ xs) b.refines.queue (remove_head_list-same b.ring) (
          Apart-sym (h ∷ xs) (m.ready_queue ∷ links_of s.ready) (
            Apart-count (h ∷ xs) (scheduler_cells main m s) (m.ready_queue ∷ links_of s.ready)
              (b.apart.0, b.apart.1.1) (λ a z. ground (arith, count-users a s))));
      running = b.refines.running;
      main_thread = b.refines.main_thread;
      number = b.refines.number;
      fits = b.refines.fits;
      once = b.refines.once;
    };
    ring = (remove_head_list-IsRing b.ring).1;
    apart = (b.apart.0, b.apart.1.1);
  }

  pub insert_tail-Beside :
      (e : Addr) (s : Spec) (blocks : List Addr)
      → Beside main h m s blocks
      → has e (h ∷ blocks) ≡ false
      → has e (scheduler_cells main m s) ≡ false
      → Beside main h (record m { links = insert_tail_list m.links h e }) s (blocks ++ e ∷ [])
  insert_tail-Beside e s blocks b out away = record {
    refines = record {
      queue = IsRing-frame (e ∷ h ∷ blocks) b.refines.queue (insert_tail_list-same e b.ring) (
          Apart-sym (e ∷ h ∷ blocks) (m.ready_queue ∷ links_of s.ready) (
            Apart-count (e ∷ h ∷ blocks) (scheduler_cells main m s)
              (m.ready_queue ∷ links_of s.ready) (away, b.apart)
              (λ a z. ground (arith, count-users a s))));
      running = b.refines.running;
      main_thread = b.refines.main_thread;
      number = b.refines.number;
      fits = b.refines.fits;
      once = b.refines.once;
    };
    ring = insert_tail_list-IsRing e b.ring out;
    apart = Apart-of_has (h ∷ blocks ++ e ∷ []) (scheduler_cells main m s) (λ a i. ground (
      arith,
      has-append a blocks (e ∷ []),
      away,
      Apart-has (h ∷ blocks) (scheduler_cells main m s) b.apart a,
    ));
  }

  pub deactivate-Beside :
      (t : Addr) (ts bs blocks : List Addr)
      → Beside main h m (running t ts bs) blocks
      → Beside main h (ut_deactivate m) (deactivate (running t ts bs)) blocks
  unfolding ut_deactivate
  deactivate-Beside t ts bs blocks b =
      let d = schedule-Dispatched m ts b.refines.queue in
      record {
        refines = ut_deactivate-Refines main m t ts bs b.refines;
        ring = IsRing-frame (m.ready_queue ∷ links_of ts) b.ring d.same (
            Apart-count (h ∷ blocks) (scheduler_cells main m (running t ts bs))
              (m.ready_queue ∷ links_of ts) b.apart
              (λ a z. ground (arith, count-links_of-append a ts bs)));
        apart =
            Apart-count (h ∷ blocks) (scheduler_cells main m (running t ts bs)) _ b.apart (λ a z.
              ground (
                arith,
                d.sentinel,
                count-dispatch a ts (bs ++ t ∷ []),
                count-links_of-append a ts bs,
                count-links_of-append a bs (t ∷ []),
              ));
      }

-- The running thread stops, and its wait block goes to the end of the list of waiters.
pub enqueue_and_stop-Beside :
    (main h e : Addr) (w : World) (t : Addr) (ts bs blocks : List Addr)
    → Beside main h w.machine (running t ts bs) blocks
    → has e (h ∷ blocks) ≡ false
    → has e (scheduler_cells main w.machine (running t ts bs)) ≡ false
    → Beside main h
        (enqueue_and_stop h e w).machine
        (deactivate (running t ts bs))
        (blocks ++ e ∷ [])
unfolding enqueue_and_stop
enqueue_and_stop-Beside main h e w t ts bs blocks b out away =
    deactivate-Beside main h (record (w.machine) { links = insert_tail_list w.machine.links h e }) t
      ts bs (blocks ++ e ∷ [])
      (insert_tail-Beside main h w.machine e (running t ts bs) blocks b out away)

pub enqueue_and_stop-block : (h e : Addr) (w : World) → (enqueue_and_stop h e w).block ≡ w.block
unfolding enqueue_and_stop
enqueue_and_stop-block h e w = refl
