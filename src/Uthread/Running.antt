-- ===== src/Uthread/Running.antt =====
-- `ut_run` from its call to its return, and turns taken by `ut_yield`.
use so_1920v_li41n.Prelude.{
  ℕ, zero, suc, ◌^◌, ◌≤◌, ◌<◌, ◌≡◌, refl, List, [], ◌∷◌, ◌++◌, arith, count, length, if◌then◌else◌,
  is_nil, append_assoc, append-nil,
}
use so_1920v_li41n.Ring.{Addr}
use so_1920v_li41n.Ring.Insert.{is_list_empty-nil, is_list_empty-cons}
use so_1920v_li41n.Uthread.{
  Machine, Run, null, ut_run, ut_run_resumed, ut_yield, returned, switched, aborted, schedule,
}
use so_1920v_li41n.Uthread.Spec.{links_of, dispatch}
use so_1920v_li41n.Uthread.Ready.{Queued, schedule-Dispatched}
use so_1920v_li41n.Uthread.Refine.{Refines, Refines-dispatch, running, ut_yield-Refines}

-- Before `ut_run`: no thread runs, and every thread that was created is ready.
pub record IsIdle (m : Machine) (ts : List Addr) : Type 0 where
  pub queue : Queued m ts
  pub idle : m.running_thread ≡ null
  pub number : m.number_of_threads ≡ length ts
  pub fits : length ts < 2 ^ 64

-- What a call of `ut_run` from `main` comes to.
abbrev pub Started : (main : Addr) → Machine → List Addr → Run → Type 0
Started main m [] r = r ≡ returned m
Started main m (t ∷ ts) r = (m' : Machine) × (r ≡ switched m') × Refines main m' (running t ts [])

-- On a machine on which no thread runs and every thread is ready, `ut_run` returns at once, and
-- changes nothing, if there is no thread; otherwise it switches to the first of them, and the others
-- stay ready.
pub ut_run-Started :
    (main : Addr) (m : Machine) (ts : List Addr)
    → IsIdle m ts
    → ((a : Addr) → count a (m.ready_queue ∷ links_of (main ∷ ts)) ≤ 1)
    → Started main m ts (ut_run main m)
unfolding ut_run
ut_run-Started main m [] i once = rw (i.idle, is_list_empty-nil i.queue) refl
ut_run-Started main m (t ∷ ts) i once =
    let m0 : Machine = record m { main_thread = main; running_thread = main } in
    (
      schedule m0,
      rw (i.idle, is_list_empty-cons i.queue),
      Refines-dispatch main m0 (schedule m0) (t ∷ ts) [] (schedule-Dispatched m0 (t ∷ ts) i.queue)
          refl (rw append-nil i.number) (rw append-nil i.fits) (λ a. rw append-nil (once a)),
    )

-- When the main thread runs again, `ut_run` returns if no thread waits for an activation, and its
-- second assertion fails if one does.
pub ut_run_resumed_lem :
    (main : Addr) (m : Machine) (bs : List Addr)
    → Refines main m (dispatch [] bs)
    → ut_run_resumed m ≡ (
        if is_nil bs
        then returned (record m { running_thread = null; main_thread = null })
        else aborted)
unfolding ut_run_resumed
ut_run_resumed_lem main m [] r = rw (is_list_empty-nil r.queue, r.number)
ut_run_resumed_lem main m (b ∷ bs) r = ground (arith, is_list_empty-nil r.queue, r.number)

-- `f` applied `n` times.
abbrev pub iterate {ℓ} : {A : Type ℓ} → ℕ → (A → A) → A → A
iterate zero f a = a
iterate (suc n) f a = iterate n f (f a)

-- While only `ut_yield` is called, the threads run in turn: after as many calls as there are threads
-- in front of `u`, and one, `u` runs, and those before it stand behind the others in their order.
pub ut_yield-turns :
    (main : Addr) (m : Machine) (t : Addr) (xs : List Addr) (u : Addr) (ys bs : List Addr)
    → Refines main m (running t (xs ++ u ∷ ys) bs)
    → Refines main (iterate (suc (length xs)) ut_yield m) (running u (ys ++ t ∷ xs) bs)
ut_yield-turns main m t [] u ys bs r = ut_yield-Refines main m t (u ∷ ys) bs r
ut_yield-turns main m t (x ∷ xs) u ys bs r =
    let r' = ut_yield-Refines main m t (x ∷ xs ++ u ∷ ys) bs r in
    let turned = rw (append_assoc xs (u ∷ ys) (t ∷ [])) at r' in
    rw (← append_assoc ys (t ∷ []) (x ∷ xs))
      (ut_yield-turns main (ut_yield m) x xs u (ys ++ t ∷ []) bs turned)
