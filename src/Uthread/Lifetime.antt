-- ===== src/Uthread/Lifetime.antt =====
-- The operations that make threads, end them and wake them, against the scheduler's specification.
use so_1920v_li41n.Prelude.{
  ◌∙◌, ap, ℕ, ◌+◌, ◌-◌, ◌%◌, ◌^◌, ◌<◌, ◌≡◌, ◌≢◌, refl, true, false, some, List, [], ◌∷◌, ◌++◌,
  arith, has, ◌==◌, count, has_of_count, count_of_has, length, length-append, update,
}
use so_1920v_li41n.Ring.{Addr, remove_head_list}
use so_1920v_li41n.Uthread.{
  Machine, null, link_of, cleanup_thread, restore_context, internal_exit, ut_exit, ut_create,
  build_thread, ut_activate, stack_size, sizeof_context, sizeof_ulong,
}
use so_1920v_li41n.Uthread.Spec.{
  Spec, links_of, active, users, count-links_of-append, exit, create, activate, remove,
}
use so_1920v_li41n.Uthread.Ready.{
  Queued, Switched, Dispatched, Dispatched-nil, Dispatched-cons, ut_activate-Queued,
  extract_next_thread-nil, extract_next_thread-cons,
}
use so_1920v_li41n.Uthread.Refine.{Refines, Refines-dispatch, running}

-- The two blocks of a thread are allocated, and are two.
pub record HasBlocks (m : Machine) (t : Addr) : Type 0 where
  pub descriptor : m.allocated t ≡ true
  pub stack : m.allocated (m.thread t).stack ≡ true
  pub two : (m.thread t).stack ≢ t

-- The two blocks of a thread of `m` are free in `m'`.
abbrev pub IsFreed : Machine → Addr → Machine → Type 0
IsFreed m t m' = (m'.allocated t ≡ false) × (m'.allocated (m.thread t).stack ≡ false)

internal_exit-Switched :
    (t n : Addr) (m : Machine)
    → HasBlocks m t
    → (m' : Machine) × (internal_exit t n m ≡ some m') × Switched n m m' × IsFreed m t m'
unfolding internal_exit cleanup_thread restore_context
internal_exit-Switched t n m b = (
  restore_context n (record m {
    running_thread = n;
    allocated = update (update m.allocated (m.thread t).stack false) t false;
  }),
  ground (arith, b.descriptor, b.stack, b.two),
  record { links = refl; sentinel = refl; main = refl; number = refl; running = refl },
  ground arith,
)

-- One thread less.
abbrev uncounted : Machine → Machine
uncounted m = record m { number_of_threads = (m.number_of_threads + 2 ^ 64 - 1) % 2 ^ 64 }

ut_exit-Dispatched :
    (m : Machine) (t : Addr) (ts : List Addr)
    → HasBlocks m t
    → m.running_thread ≡ t
    → Queued m ts
    → (m' : Machine) × (ut_exit m ≡ some m') × Dispatched (uncounted m) ts m' × IsFreed m t m'
unfolding ut_exit
ut_exit-Dispatched m t [] b e q =
    let (m', made, sw, freed) =
      internal_exit-Switched t m.main_thread (uncounted m)
        (record { descriptor = b.descriptor; stack = b.stack; two = b.two }) in
    (
      m',
      rw (extract_next_thread-nil (uncounted m) q)
          (ap (λ t. internal_exit t m.main_thread (uncounted m)) e ∙ made),
      Dispatched-nil (uncounted m) m' q sw,
      freed,
    )
ut_exit-Dispatched m t (u ∷ us) b e q =
    let m1 : Machine = record (uncounted m) {
      links = (remove_head_list m.links m.ready_queue).1;
    } in
    let (m', made, sw, freed) =
      internal_exit-Switched t u m1
        (record { descriptor = b.descriptor; stack = b.stack; two = b.two }) in
    (
      m',
      rw (extract_next_thread-cons (uncounted m) u us q) (ap (λ t. internal_exit t u m1) e ∙ made),
      Dispatched-cons (uncounted m) m' u us q sw,
      freed,
    )

pub count-users :
    (a : Addr) (s : Spec)
    → count a (links_of (users s))
      ≡ count a (links_of (active s.running))
        + count a (links_of s.ready)
        + count a (links_of s.blocked)
count-users a s = omega (
  arith,
  count-links_of-append a (active s.running) (s.ready ++ s.blocked),
  count-links_of-append a s.ready s.blocked,
  count-links_of-append a (active s.running ++ s.ready) s.blocked,
  count-links_of-append a (active s.running) s.ready,
)

pub length-users :
    (s : Spec) → length (users s) ≡ length (active s.running) + length s.ready + length s.blocked
length-users s = omega (
  arith,
  length-append (active s.running) (s.ready ++ s.blocked),
  length-append s.ready s.blocked,
  length-append (active s.running ++ s.ready) s.blocked,
  length-append (active s.running) s.ready,
)

pub count-create :
    (a t : Addr) (s : Spec)
    → count a (links_of (users (create t s)))
      ≡ count a (links_of (users s)) + count a (link_of t ∷ [])
count-create a t s =
    omega
      (arith, count-users a s, count-users a (create t s), count-links_of-append a s.ready (t ∷ []))

length-create : (t : Addr) (s : Spec) → length (users (create t s)) ≡ length (users s) + 1
length-create t s =
    omega (arith, length-users s, length-users (create t s), length-append s.ready (t ∷ []))

pub count-remove :
    (a t : Addr) (bs : List Addr)
    → has t bs ≡ true
    → count a (links_of bs) ≡ count a (links_of (remove t bs)) + count a (link_of t ∷ [])
count-remove a t [] h = absurd (ground arith)
count-remove a t (b ∷ bs) h = ground (arith, count-remove a t bs)

length-remove : (t : Addr) (bs : List Addr) → has t bs ≡ true → length bs ≡ length (remove t bs) + 1
length-remove t [] h = absurd (ground arith)
length-remove t (b ∷ bs) h = ground (arith, length-remove t bs)

pub count-activate :
    (a t : Addr) (s : Spec)
    → has t s.blocked ≡ true
    → count a (links_of (users (activate t s))) ≡ count a (links_of (users s))
count-activate a t s h = omega (
  arith,
  count-users a s,
  count-users a (activate t s),
  count-links_of-append a s.ready (t ∷ []),
  count-remove a t s.blocked h,
)

length-activate :
    (t : Addr) (s : Spec)
    → has t s.blocked ≡ true
    → length (users (activate t s)) ≡ length (users s)
length-activate t s h = omega (
  arith,
  length-users s,
  length-users (activate t s),
  length-append s.ready (t ∷ []),
  length-remove t s.blocked h,
)

-- The fields that `ut_create` leaves alone, and the count.
record SameBut (m m' : Machine) : Type 0 where
  sentinel : m'.ready_queue ≡ m.ready_queue
  running : m'.running_thread ≡ m.running_thread
  main : m'.main_thread ≡ m.main_thread
  number : m'.number_of_threads ≡ (m.number_of_threads + 1) % 2 ^ 64

-- The thread `t` has been made, with its descriptor in the block `t` and its stack in the block `stack`,
-- and every other block and descriptor is as it was.
pub record IsMade (m : Machine) (t stack f x : ℕ) (m' : Machine) : Type 0 where
  pub descriptor : m'.allocated t ≡ true
  pub stack_block : m'.allocated stack ≡ true
  pub its_stack : (m'.thread t).stack ≡ stack
  pub its_function : (m'.thread t).function ≡ f
  pub its_argument : (m'.thread t).argument ≡ x
  pub its_context : (m'.thread t).context ≡ stack + stack_size - sizeof_context - sizeof_ulong
  pub other_blocks : (b : Addr) → b ≢ t → b ≢ stack → m'.allocated b ≡ m.allocated b
  pub other_threads : (b : Addr) → b ≢ t → m'.thread b ≡ m.thread b

ut_create-Queued :
    (t stack entry f x : ℕ) (m : Machine) (ts : List Addr)
    → t ≢ null
    → stack ≢ null
    → Queued m ts
    → has (link_of t) (m.ready_queue ∷ links_of ts) ≡ false
    → (m' : Machine) × (ut_create t stack entry f x m ≡ some (t, m'))
      × Queued m' (ts ++ t ∷ [])
      × SameBut m m'
      × IsMade m t stack f x m'
unfolding ut_create build_thread ut_activate
ut_create-Queued t stack entry f x m ts ne ne2 q out =
    let thread_set : (t == null) ≡ false = ground arith in
    let stack_set : (stack == null) ≡ false = ground arith in
    let m1 = build_thread t stack entry f x m in
    (
      ut_activate t m1,
      rw (thread_set, stack_set),
      ut_activate-Queued m1 t ts q out,
      record { sentinel = refl; running = refl; main = refl; number = refl },
      record {
        descriptor = ground arith;
        stack_block = ground arith;
        its_stack = ground arith;
        its_function = ground arith;
        its_argument = ground arith;
        its_context = ground arith;
        other_blocks = λ b away apart. ground (arith, away, apart);
        other_threads = λ b away. ground (arith, away);
      },
    )

module _ (main : Addr) where
  -- Where the running thread has its two allocated blocks, `ut_exit` ends it, frees the two blocks
  -- and runs the next ready thread.
  pub ut_exit-Refines :
      (m : Machine) (t : Addr) (ts bs : List Addr)
      → HasBlocks m t
      → Refines main m (running t ts bs)
      → (m' : Machine) × (ut_exit m ≡ some m')
        × Refines main m' (exit (running t ts bs))
        × IsFreed m t m'
  ut_exit-Refines m t ts bs b r =
      let (m', e, d, freed) = ut_exit-Dispatched m t ts b r.running r.queue in
      (
        m',
        e,
        Refines-dispatch main _ m' ts bs d r.main_thread (omega (arith, r.number, r.fits))
            (omega arith) (λ a. ground (arith, r.once a)),
        freed,
      )

  -- If the blocks `thread` and `stack` that malloc gives are not null, the link of `thread` is in no list
  -- and the number of threads fits its counter, `ut_create` puts the thread behind the ready queue. Both
  -- blocks are then allocated, the descriptor has the stack, the function and the argument, with
  -- the stack pointer below the top of the stack, and every other block and descriptor is as it was.
  pub ut_create-Refines :
      (thread stack internal_start function argument : ℕ) (m : Machine) (s : Spec)
      → Refines main m s
      → thread ≢ null
      → stack ≢ null
      → length (users s) + 1 < 2 ^ 64
      → has (link_of thread) (m.ready_queue ∷ links_of (main ∷ users s)) ≡ false
      → (m' : Machine) × (ut_create thread stack internal_start function argument m
          ≡ some (thread, m'))
        × Refines main m' (create thread s)
        × IsMade m thread stack function argument m'
  ut_create-Refines t stack entry f x m s r ne ne2 fits out =
      let free = count_of_has (link_of t) (m.ready_queue ∷ links_of (main ∷ users s)) out in
      let parts = count-users (link_of t) s in
      let (m', made, q, same, blocks) =
        ut_create-Queued t stack entry f x m s.ready ne ne2 r.queue
          (has_of_count (link_of t) (m.ready_queue ∷ links_of s.ready) (ground arith)) in
      (
        m',
        made,
        record {
          queue = q;
          running = same.running ∙ r.running;
          main_thread = same.main ∙ r.main_thread;
          number = omega (arith, same.number, r.number, length-create t s);
          fits = omega (arith, length-create t s);
          once = λ a. ground (arith, same.sentinel, r.once a, count-users a s, count-create a t s);
        },
        blocks,
      )

  -- `ut_activate` puts a waiting thread behind the ready queue.
  pub ut_activate-Refines :
      (m : Machine) (t : Addr) (s : Spec)
      → Refines main m s
      → has t s.blocked ≡ true
      → Refines main (ut_activate t m) (activate t s)
  unfolding ut_activate
  ut_activate-Refines m t s r waits = record {
    queue = ut_activate-Queued m t s.ready r.queue (
        has_of_count (link_of t) (m.ready_queue ∷ links_of s.ready) (
          ground (
            arith,
            r.once (link_of t),
            count-users (link_of t) s,
            count-remove (link_of t) t s.blocked waits,
          )));
    running = r.running;
    main_thread = r.main_thread;
    number = omega (arith, r.number, length-activate t s waits);
    fits = omega (arith, r.fits, length-activate t s waits);
    once = λ a. ground (arith, r.once a, count-activate a t s waits);
  }
