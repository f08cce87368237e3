-- ===== src/Synch/Semaphore/Post.antt =====
-- sem_post and sem_wait against the scheduler's specification and the order of service.
use Prim.Native.Nat.{min}
use so_1920v_li41n.Prelude.{
  ℕ, zero, suc, ◌+◌, ◌-◌, ◌^◌, ◌≤◌, ◌<◌, ◌≡◌, ◌∙◌, refl, true, false, Option, some, List, [], ◌∷◌,
  ◌++◌, arith, has, ◌==◌, length, if◌then◌else◌, ltb, lt→ltb, inl, inr, Bool-cases,
}
use so_1920v_li41n.Ring.{Addr, remove_head_list}
use so_1920v_li41n.Ring.Chain.{IsChain-flink, container_of-zero}
use so_1920v_li41n.Uthread.{Machine, ut_activate}
use so_1920v_li41n.Uthread.Spec.{Spec, activate}
use so_1920v_li41n.Synch.{WaitBlock, World}
use so_1920v_li41n.Synch.Waiters.{Beside, activate-Beside, remove_head-Beside}
use so_1920v_li41n.Synch.Event.Set.{threads_of, AllWait, wake}
use so_1920v_li41n.Synch.Semaphore.{Semaphore, sem_post_loop, sem_post, add_units, release_head}
use so_1920v_li41n.Synch.Semaphore.Spec.{
  Served, serve, fits, requested, IsSettled, serve-append, serve-requested, serve-IsSettled,
}

abbrev pub world : Machine → (Addr → WaitBlock) → World
world m block = record { machine = m; block = block }

abbrev pub semaphore : Addr → (units limit : ℕ) → Semaphore
semaphore h units limit = record { waiters = h; units = units; limit = limit }

pub sem_post_loop-empty :
    (fuel h units limit : ℕ) (w : World)
    → w.machine.links.flink h ≡ h
    → sem_post_loop (suc fuel) (semaphore h units limit) w ≡ some (semaphore h units limit, w)
unfolding sem_post_loop
sem_post_loop-empty fuel h units limit w e = ground (arith, container_of-zero h)

pub sem_post_loop-step :
    (fuel h x units limit : ℕ) (w : World)
    → w.machine.links.flink h ≡ x
    → (x == h) ≡ false
    → sem_post_loop (suc fuel) (semaphore h units limit) w ≡ (
        if fits w.block units x
        then sem_post_loop fuel (semaphore h (units - (w.block x).units) limit) (release_head h x w)
        else some (semaphore h units limit, w))
unfolding sem_post_loop
sem_post_loop-step fuel h x units limit w e other = ground (arith, container_of-zero x)

-- One waiter less in the list, and its thread activated.
pub release_head-Beside :
    (main h : Addr) (m : Machine) (block : Addr → WaitBlock) (s : Spec) (x : Addr) (xs : List Addr)
    → Beside main h m s (x ∷ xs)
    → has (block x).thread s.blocked ≡ true
    → (m' : Machine) × (release_head h x (world m block) ≡ world m' block)
      × Beside main h m' (activate (block x).thread s) xs
unfolding release_head
release_head-Beside main h m block s x xs b waits =
    let m1 : Machine = record m { links = (remove_head_list m.links h).1 } in
    (
      ut_activate (block x).thread m1,
      refl,
      activate-Beside main h m1 (block x).thread s xs (remove_head-Beside main h m s x xs b) waits,
    )

-- What a run of the loop has come to.
abbrev pub Posted :
    (main h limit : ℕ) → (Addr → WaitBlock) → Spec → Served → Option (Semaphore × World) → Type 0
Posted main h limit block s o r =
    (m' : Machine) × (r ≡ some (semaphore h o.units limit, world m' block))
    × Beside main h m' (wake (threads_of block o.woken) s) o.waiting

module _ (main h limit : ℕ) (block : Addr → WaitBlock) where
  sem_post_loop-serve :
      (fuel units : ℕ) (m : Machine) (s : Spec) (blocks : List Addr)
      → Beside main h m s blocks
      → length blocks < fuel
      → AllWait (threads_of block blocks) s.blocked
      → Posted main h limit block s
          (serve block units blocks)
          (sem_post_loop fuel (semaphore h units limit) (world m block))
  unfolding serve
  sem_post_loop-serve zero units m s blocks b enough waits = absurd (omega arith)
  sem_post_loop-serve (suc fuel) units m s [] b enough waits = (
    m,
    sem_post_loop-empty fuel h units limit (world m block)
        (IsChain-flink m.links h [] h b.ring.chain),
    b,
  )
  sem_post_loop-serve (suc fuel) units m s (x ∷ xs) b enough waits =
      let other : (x == h) ≡ false = ground (arith, b.ring.distinct.0) in
      let first_x = IsChain-flink m.links h (x ∷ xs) h b.ring.chain in
      let step = sem_post_loop-step fuel h x units limit (world m block) first_x other in
      let (m1, released, b1) = release_head-Beside main h m block s x xs b waits.0 in
      let (m', done, b') =
        sem_post_loop-serve fuel (units - (block x).units) m1 (activate (block x).thread s) xs b1
          (omega arith) waits.1 in
      elim (Bool-cases (fits block units x)) [
        | inl fit ↦ rw fit (m', step ∙ rw (fit, released) done, b')
        | inr unfit ↦ rw unfit (m, step ∙ rw unfit, b)
      ]

  -- `sem_post` adds the units, up to the limit, and serves the waiters from the front: the served
  -- threads become ready in their order, and the others keep waiting. Fuel for the length of the list
  -- is enough; the sum is an `int`.
  pub sem_post-serve :
      (fuel units n : ℕ) (m : Machine) (s : Spec) (blocks : List Addr)
      → Beside main h m s blocks
      → length blocks < fuel
      → AllWait (threads_of block blocks) s.blocked
      → units + n < 2 ^ 31
      → Posted main h limit block s
          (serve block (if ltb limit (units + n) then limit else units + n) blocks)
          (sem_post fuel (semaphore h units limit) n (world m block))
  unfolding sem_post add_units
  sem_post-serve fuel units n m s blocks b enough waits small =
      rw (lt→ltb (units + n) (2 ^ 31) small) (
        sem_post_loop-serve fuel (if ltb limit (units + n) then limit else units + n) m s blocks b
          enough waits)

  -- What `sem_post` does to the list of waiters: the threads that it wakes are a run of them from the
  -- front, and the others keep waiting in their order. The units that are left keep to the limit, and
  -- with those that were handed out they are the units before and the new ones, or the limit where that is
  -- less. Either nobody is left, or no unit, or the first who is left requests more units than are left;
  -- those behind the first wait whatever they request.
  pub sem_post-fifo :
      (fuel units n : ℕ) (m : Machine) (s : Spec) (blocks : List Addr)
      → Beside main h m s blocks
      → length blocks < fuel
      → AllWait (threads_of block blocks) s.blocked
      → units + n < 2 ^ 31
      → (o : Served) × Posted main h limit block s o
          (sem_post fuel (semaphore h units limit) n (world m block))
        × (o.woken ++ o.waiting ≡ blocks)
        × (o.units ≤ limit)
        × (o.units + requested block o.woken ≡ min limit (units + n))
        × IsSettled block o.units o.waiting
  sem_post-fifo fuel units n m s blocks b enough waits small =
      let total = if ltb limit (units + n) then limit else units + n in
      (
        serve block total blocks,
        sem_post-serve fuel units n m s blocks b enough waits small,
        serve-append block total blocks,
        ground (arith, serve-requested block total blocks),
        ground (arith, serve-requested block total blocks),
        serve-IsSettled block total blocks,
      )
