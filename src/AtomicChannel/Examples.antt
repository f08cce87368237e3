-- ===== src/AtomicChannel/Examples.antt =====
-- Runs of one sender and one receiver on a channel of two slots.
use so_1920v_li41n.Prelude.{
  ℕ, ◌≤◌, ◌≡◌, ◌≢◌, refl, true, ◌⊎◌, none, some, List, [], ◌∷◌, ◌++◌, arith, length,
}
use so_1920v_li41n.AtomicChannel.{Shared, Pc, put_wait, put_copy, get_wait, got, new_channel, step}
use so_1920v_li41n.AtomicChannel.Pair.{
  Pair, start, Reach, here, next, call_put, call_get, send, receive, received-IsPrefix, no_deadlock,
}
use so_1920v_li41n.Shmem.{shmem_create, shmem_internal_map}
use so_1920v_li41n.AtomicChannel.Lifetime.{System, Ended, mc_create, mc_create-Ended}
use so_1920v_li41n.AtomicChannel.Stale.{Three, run, overtaking, get-stale}

-- Both are called on a new channel.
abbrev called : Pair
called = record (start 2 (λ k. 0)) { sender = put_wait 5; receiver = get_wait; sent = 5 ∷ [] }

called-Reach : Reach 2 (λ k. 0) called
called-Reach =
    next (next here (call_put (start 2 (λ k. 0)) 5 refl))
      (call_get (record (start 2 (λ k. 0)) { sender = put_wait 5; sent = 5 ∷ [] }) refl)

-- A call of mc_put has ended, and the receiver has returned its element.
returned_run :
    (s : Shared) × (p : Pc) × Reach 2
      (λ k. 0)
      (record { shared = s; sender = p; receiver = got 5; sent = 5 ∷ []; received = 5 ∷ [] })
unfolding new_channel step
returned_run =
    let put : Reach 2 (λ k. 0) _ =
      next (next (next (next called-Reach (send called refl)) (send _ refl)) (send _ refl))
        (send _ refl) in
    (
      _,
      _,
      next (next (next (next put (receive _ refl)) (receive _ refl)) (receive _ refl))
          (receive _ refl),
    )

received-IsPrefix_example : (rest : List ℕ) × (5 ∷ [] ≡ 5 ∷ [] ++ rest) × (length rest ≤ 3)
received-IsPrefix_example = received-IsPrefix 2 (λ k. 0) returned_run.2

no_deadlock_example :
    (step called.shared called.sender ≢ none) ⊎ (step called.shared called.receiver ≢ none)
no_deadlock_example = no_deadlock 2 (λ k. 0) 5 called-Reach (omega arith) refl refl

get-stale_example :
    (t : Three) × (run overtaking
        (record { shared = new_channel 3 (λ k. 77); a = put_wait 1; b = put_wait 2; r = get_wait })
      ≡ some t)
    × (t.r ≡ got 77)
    × (t.a ≡ put_copy 1 0)
get-stale_example = get-stale 3 1 2 (λ k. 77) (omega arith)

-- A channel of two elements of eight bytes, which lies at 900 and which the process 1 destroys.
mc_create-Ended_example :
    let nothing : System = record {
      calls = record { opened = []; closed = []; mapped = []; unmapped = []; unlinked = [] };
      semaphores = 0;
    } in
    Ended 80 1 1 7
      (some 900)
      nothing
      (mc_create 64 8 2 1 7 (λ i. 0) (some 3) true (some 900) true true nothing)
unfolding shmem_create shmem_internal_map
mc_create-Ended_example =
    mc_create-Ended 64 8 2 1 1 7 (λ i. 0) (some 3) true (some 900) true true
      (record {
        calls = record { opened = []; closed = []; mapped = []; unmapped = []; unlinked = [] };
        semaphores = 0;
      })
