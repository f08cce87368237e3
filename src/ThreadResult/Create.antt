-- ===== src/ThreadResult/Create.antt =====
-- aula-04-29/uthreads/uthread/uthread.c: UtCreate64. The two blocks are the results of malloc; a null
-- `thread` is written through before it is tested, and a null `stack` fails the assertion.
use mathlib.Core.Path.{subst}
use so_1920v_li41n.Prelude.{
  ℕ, ◌+◌, ◌-◌, ◌*◌, ◌%◌, ◌^◌, ◌<◌, ◌≡◌, ◌≢◌, refl, true, false, Option, none, some, [], ◌∷◌, arith,
  has, ◌==◌, if◌then◌else◌, update, length, Apart-of_has, has_of_count, count_of_has, Bool-cases,
  inl, inr,
}
use so_1920v_li41n.Ring.{Addr, Links, init_list_head}
use so_1920v_li41n.Ring.Insert.{
  SameOutside, IsRing-frame, init_list_head-IsRing, insert_tail_list-same,
}
use so_1920v_li41n.Uthread.{
  Machine, Descriptor, null, link_of, stack_size, sizeof_context, zero_stack, ut_activate,
  ut_create, build_thread, restore_context,
}
use so_1920v_li41n.Uthread.Spec.{Spec, create, links_of, users}
use so_1920v_li41n.Uthread.Refine.{Refines}
use so_1920v_li41n.Uthread.Lifetime.{HasBlocks, ut_create-Refines, count-create, count-users}
use so_1920v_li41n.Synch.Waiters.{Beside, scheduler_cells}
use so_1920v_li41n.ThreadResult.{World, res_waiters_of}

-- The word of zeros and the shadow area lie behind the context.
unfoldable pub build_thread64 :
    (thread stack internal_start function argument : ℕ) → Machine → Machine
build_thread64 thread stack internal_start function argument m =
    let context = stack + stack_size - sizeof_context - 8 * 5 in
    let word = zero_stack stack m.word in
    let word = update word context 0x77777777 in
    let word = update word (context + 8) 0x66666666 in
    let word = update word (context + 16) 0x55555555 in
    let word = update word (context + 24) 0x44444444 in
    let word = update word (context + 32) 0x11111111 in
    let word = update word (context + 40) 0x00000000 in
    let word = update word (context + 48) internal_start in
    let descriptor : Descriptor = record {
      context = context;
      function = function;
      argument = argument;
      stack = stack;
    } in
    record m {
      allocated = update (update m.allocated thread true) stack true;
      links = init_list_head m.links (res_waiters_of thread);
      word = word;
      thread = update m.thread thread descriptor;
      number_of_threads = (m.number_of_threads + 1) % 2 ^ 64;
    }

unfoldable pub ut_create64 :
    (thread stack internal_start function argument : ℕ) → World → Option (Addr × World)
ut_create64 thread stack internal_start function argument w =
    if thread == null
    then none
    else if stack == null
    then none
    else some (
      thread,
      record w {
        machine =
            ut_activate thread
              (build_thread64 thread stack internal_start function argument w.machine);
        result = update w.result thread (record (w.result thread) { has_result = false });
      },
    )

init_list_head-same : (m : Links) (h : Addr) → SameOutside (h ∷ []) m (init_list_head m h)
unfolding init_list_head
init_list_head-same m h a out = ground (arith, out)

-- The first instruction of the new thread is that of internal_start.
build_thread64-rip :
    (t stack entry f x : ℕ) (m : Machine)
    → (restore_context t (ut_activate t (build_thread64 t stack entry f x m))).cpu.rip ≡ entry
unfolding restore_context build_thread64 ut_activate zero_stack
build_thread64-rip t stack entry f x m = ground arith

module _ (main : Addr) (t stack entry f x : ℕ) (w : World) (s : Spec) where
  -- UtCreate64 makes a thread from two new blocks and puts it behind the ready queue, with an empty
  -- list of threads that wait for its result and no result; its first instruction is internal_start's.
  pub ut_create64-Beside :
      Refines main w.machine s
      → t ≢ null
      → stack ≢ null
      → stack ≢ t
      → length (users s) + 1 < 2 ^ 64
      → has (link_of t) (scheduler_cells main w.machine s) ≡ false
      → has (res_waiters_of t) (scheduler_cells main w.machine s) ≡ false
      → (w' : World) × (ut_create64 t stack entry f x w ≡ some (t, w'))
        × Beside main (res_waiters_of t) w'.machine (create t s) []
        × HasBlocks w'.machine t
        × ((w'.result t).has_result ≡ false)
        × ((restore_context t w'.machine).cpu.rip ≡ entry)
  unfolding ut_create64 build_thread64 ut_create build_thread ut_activate
  ut_create64-Beside r ne ne2 two fits out away =
      let m = w.machine in
      let h = res_waiters_of t in
      let cells = m.ready_queue ∷ links_of s.ready in
      let free = count_of_has h (scheduler_cells main m s) away in
      let clear : has h cells ≡ false =
        has_of_count h cells (ground (arith, free, count-users h s)) in
      let m0 : Machine = record m { links = init_list_head m.links h } in
      let r0 : Refines main m0 s = record {
        queue = IsRing-frame (h ∷ []) r.queue (init_list_head-same m.links h) (
            Apart-of_has cells (h ∷ []) (λ a i. elim (Bool-cases (a == h)) [
              | inl same ↦
                  let e : a ≡ h = ground (arith, same) in
                  let i' = subst (λ z. has z cells ≡ true) e i in absurd (ground (arith, i', clear))
              | inr other ↦ ground (arith, other)
            ]));
        running = r.running;
        main_thread = r.main_thread;
        number = r.number;
        fits = r.fits;
        once = r.once;
      } in
      let (m1, made, r1, blocks) =
        ut_create-Refines main t stack entry f x m0 s r0 ne ne2 fits out in
      let thread_set : (t == null) ≡ false = ground (arith, ne) in
      let stack_set : (stack == null) ≡ false = ground (arith, ne2) in
      let m2 = ut_activate t (build_thread t stack entry f x m0) in
      let g : m1 ≡ m2 = ground (arith, made, thread_set, stack_set) in
      let r2 : Refines main m2 (create t s) = subst (λ z. Refines main z (create t s)) g r1 in
      let m3 = ut_activate t (build_thread64 t stack entry f x m) in
      (
        record w {
          machine = m3;
          result = update w.result t (record (w.result t) { has_result = false });
        },
        rw (thread_set, stack_set) refl,
        record {
          refines = record {
            queue = r2.queue;
            running = r2.running;
            main_thread = r2.main_thread;
            number = r2.number;
            fits = r2.fits;
            once = r2.once;
          };
          ring =
              IsRing-frame (link_of t ∷ cells) (init_list_head-IsRing m.links h)
                (insert_tail_list-same (link_of t) r0.queue) (ground (arith, clear), tt);
          apart = (
            has_of_count h (scheduler_cells main m (create t s))
                (ground (arith, free, count-create h t s)),
            tt,
          );
        },
        record { descriptor = ground arith; stack = ground arith; two = ground (arith, two) },
        ground arith,
        build_thread64-rip t stack entry f x m,
      )
