-- ===== src/Synch/Semaphore/Earlier.antt =====
-- The earlier `sem_post` of aula-05-04 does what the later one does, if every request is positive.
use so_1920v_li41n.Prelude.{
  sym, ℕ, zero, suc, ◌+◌, ◌-◌, ◌^◌, ◌<◌, ◌≡◌, ◌∙◌, true, false, some, List, [], ◌∷◌, arith, has,
  ◌==◌, length, if◌then◌else◌, ltb, inl, inr, Bool-cases, has_of_count, count_of_has,
}
use so_1920v_li41n.Ring.{Addr, remove_head_list}
use so_1920v_li41n.Ring.Chain.{first, IsChain-flink, container_of-zero}
use so_1920v_li41n.Ring.Insert.{insert_tail_list-same}
use so_1920v_li41n.Ring.Remove.{remove_head_list-same}
use so_1920v_li41n.Uthread.{Machine, ut_activate, link_of}
use so_1920v_li41n.Uthread.Spec.{Spec, activate, links_of}
use so_1920v_li41n.Uthread.Lifetime.{count-users, count-remove}
use so_1920v_li41n.Synch.{WaitBlock, World}
use so_1920v_li41n.Synch.Waiters.{Beside, scheduler_cells, remove_head-Beside}
use so_1920v_li41n.Synch.Event.Set.{threads_of, AllWait}
use so_1920v_li41n.Synch.Semaphore.{
  sem_post_loop, sem_post_loop_earlier, sem_post_earlier, sem_post, add_units, release_head,
}
use so_1920v_li41n.Synch.Semaphore.Spec.{fits}
use so_1920v_li41n.Synch.Semaphore.Post.{
  world, semaphore, release_head-Beside, sem_post_loop-empty, sem_post_loop-step,
}

-- Every wait block requests a unit at least.
abbrev pub AllPositive : (Addr → WaitBlock) → List Addr → Type 0
AllPositive block [] = Unit
AllPositive block (b ∷ bs) = (0 < (block b).units) × AllPositive block bs

earlier-empty :
    (fuel h units limit : ℕ) (w : World)
    → sem_post_loop_earlier (suc fuel) h (semaphore h units limit) w
      ≡ some (semaphore h units limit, w)
unfolding sem_post_loop_earlier
earlier-empty fuel h units limit w = ground (arith, container_of-zero h)

earlier-step :
    (fuel h x units limit : ℕ) (w : World)
    → (x == h) ≡ false
    → 0 < (w.block x).units
    → sem_post_loop_earlier (suc fuel) x (semaphore h units limit) w ≡ (
        if fits w.block units x
        then sem_post_loop_earlier fuel
            ((release_head h x w).machine.links.flink x)
            (semaphore h (units - (w.block x).units) limit)
            (release_head h x w)
        else some (semaphore h units limit, w))
unfolding sem_post_loop_earlier
earlier-step fuel h x units limit w other positive = ground (arith, container_of-zero x)

module _ (main h limit : ℕ) (block : Addr → WaitBlock) where
  -- The wait block that leaves the list keeps its forward pointer.
  release_head-flink :
      (m : Machine) (s : Spec) (x : Addr) (xs : List Addr)
      → Beside main h m s (x ∷ xs)
      → has (block x).thread s.blocked ≡ true
      → (release_head h x (world m block)).machine.links.flink x ≡ first xs h
  unfolding release_head ut_activate
  release_head-flink m s x xs b waits =
      let m1 : Machine = record m { links = (remove_head_list m.links h).1 } in
      let b1 = remove_head-Beside main h m s x xs b in
      let t = (block x).thread in
      (insert_tail_list-same (link_of t) b1.refines.queue x (
        has_of_count x (link_of t ∷ m.ready_queue ∷ links_of s.ready) (
          ground (
            arith,
            count_of_has x (scheduler_cells main m s) b.apart.1.0,
            count-users x s,
            count-remove x t s.blocked waits,
          )))).0
      ∙ (remove_head_list-same b.ring x (ground (arith, b.ring.distinct))).0
      ∙ IsChain-flink m.links x xs h b.ring.chain.2

  loops-eq :
      (fuel units : ℕ) (m : Machine) (s : Spec) (blocks : List Addr)
      → Beside main h m s blocks
      → length blocks < fuel
      → AllWait (threads_of block blocks) s.blocked
      → AllPositive block blocks
      → sem_post_loop_earlier fuel (first blocks h) (semaphore h units limit) (world m block)
        ≡ sem_post_loop fuel (semaphore h units limit) (world m block)
  loops-eq zero units m s blocks b enough waits pos = absurd (omega arith)
  loops-eq (suc fuel) units m s [] b enough waits pos =
      earlier-empty fuel h units limit (world m block)
      ∙ sym (
          sem_post_loop-empty fuel h units limit (world m block)
            (IsChain-flink m.links h [] h b.ring.chain))
  loops-eq (suc fuel) units m s (x ∷ xs) b enough waits pos =
      let w = world m block in
      let other : (x == h) ≡ false = ground (arith, b.ring.distinct.0) in
      let early = earlier-step fuel h x units limit w other pos.0 in
      let first_x = IsChain-flink m.links h (x ∷ xs) h b.ring.chain in
      let late = sem_post_loop-step fuel h x units limit w first_x other in
      let (m1, released, b1) = release_head-Beside main h m block s x xs b waits.0 in
      let others =
        loops-eq fuel (units - (block x).units) m1 (activate (block x).thread s) xs b1 (omega arith)
          waits.1 pos.1 in
      elim (Bool-cases (fits block units x)) [
        | inl fit ↦ rw (early, late, fit, release_head-flink m s x xs b waits.0, released) others
        | inr unfit ↦ rw (early, late, unfit)
      ]

  -- The two versions of `sem_post` agree, whatever is posted, on a semaphore all of whose waiters
  -- request a unit at least, given fuel for the length of the list.
  pub sem_post_earlier-eq :
      (fuel units n : ℕ) (m : Machine) (s : Spec) (blocks : List Addr)
      → Beside main h m s blocks
      → length blocks < fuel
      → AllWait (threads_of block blocks) s.blocked
      → AllPositive block blocks
      → sem_post_earlier fuel (semaphore h units limit) n (world m block)
        ≡ sem_post fuel (semaphore h units limit) n (world m block)
  unfolding sem_post sem_post_earlier add_units
  sem_post_earlier-eq fuel units n m s blocks b enough waits pos =
      elim (Bool-cases (ltb (units + n) (2 ^ 31))) [
        | inl small ↦
            rw (small, IsChain-flink m.links h blocks h b.ring.chain)
              (loops-eq fuel (if ltb limit (units + n) then limit else units + n) m s blocks b
                enough waits pos)
        | inr big ↦ rw big
      ]
