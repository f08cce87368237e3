-- ===== src/ThreadResult/Deliver.antt =====
-- The loop of UtExit, which gives a result to the threads that wait for it.
use so_1920v_li41n.Prelude.{
  ℕ, zero, suc, ◌<◌, ◌≡◌, refl, true, some, List, [], ◌∷◌, arith, has, length, if◌then◌else◌,
  update,
}
use mathlib.Core.Path.{subst, subst⁻¹}
use so_1920v_li41n.Ring.{Addr, Links, remove_head_list}
use so_1920v_li41n.Ring.Insert.{is_list_empty-nil, is_list_empty-cons}
use so_1920v_li41n.Ring.Remove.{remove_head_list-IsRing}
use so_1920v_li41n.Uthread.{Machine, ut_activate}
use so_1920v_li41n.Uthread.Spec.{Spec, activate}
use so_1920v_li41n.Synch.Waiters.{Beside, activate-Beside, remove_head-Beside}
use so_1920v_li41n.Synch.Event.Set.{AllWait, wake}
use so_1920v_li41n.ThreadResult.{ResWaitBlock, Result, World, deliver, deliver_loop}

-- A world whose machine is `m`, but for the number of threads.
abbrev pub world : ℕ → Machine → (Addr → ResWaitBlock) → (Addr → Result) → World
world n m block result = record {
  machine = record m { number_of_threads = n };
  block = block;
  result = result;
}

abbrev pub handles : (Addr → ResWaitBlock) → List Addr → List Addr
handles block [] = []
handles block (b ∷ bs) = (block b).thread_handle ∷ handles block bs

abbrev pub given : ℕ → ResWaitBlock → ResWaitBlock
given res b = record b { result = res }

handles-update :
    (block : Addr → ResWaitBlock) (x res : ℕ) (bs : List Addr)
    → handles (update block x (given res (block x))) bs ≡ handles block bs
handles-update block x res [] = refl
handles-update block x res (b ∷ bs) = ground (arith, handles-update block x res bs)

-- The machine `m` with other links.
abbrev pub linked : Machine → Links → Machine
linked m links = record m { links = links }

module _ (main h res n : ℕ) (result : Addr → Result) where
  deliver-Beside :
      (m : Machine) (block : Addr → ResWaitBlock) (s : Spec) (x : Addr) (xs : List Addr)
      → Beside main h m s (x ∷ xs)
      → has (block x).thread_handle s.blocked ≡ true
      → (links : Links) × (deliver h res (world n m block result)
          ≡ world n (linked m links) (update block x (given res (block x))) result)
        × Beside main h (linked m links) (activate (block x).thread_handle s) xs
  unfolding deliver ut_activate
  deliver-Beside m block s x xs b waits =
      let m1 = linked m (remove_head_list m.links h).1 in
      let head = (remove_head_list-IsRing b.ring).0 in
      (
        (ut_activate (block x).thread_handle m1).links,
        rw head (ground arith),
        activate-Beside main h m1 (block x).thread_handle s xs
            (remove_head-Beside main h m s x xs b) waits,
      )

  -- Every waiter has the result, in the list nobody is left, and the threads are ready in the order
  -- in which they came.
  pub deliver_loop-wake :
      (fuel : ℕ) (m : Machine) (block : Addr → ResWaitBlock) (s : Spec) (x : Addr) (xs : List Addr)
      → Beside main h m s (x ∷ xs)
      → length xs < fuel
      → AllWait (handles block (x ∷ xs)) s.blocked
      → (links : Links) × (block' : Addr → ResWaitBlock) × (deliver_loop fuel h res
            (world n m block result)
          ≡ some (world n (linked m links) block' result))
        × Beside main h (linked m links) (wake (handles block (x ∷ xs)) s) []
        × ((a : Addr) → block' a ≡ (if has a (x ∷ xs) then given res (block a) else block a))
  unfolding deliver_loop
  deliver_loop-wake zero m block s x xs b enough waits = absurd (omega arith)
  deliver_loop-wake (suc fuel) m block s x [] b enough waits =
      let (links, done, b') = deliver-Beside m block s x [] b waits.0 in
      (
        links,
        update block x (given res (block x)),
        rw (done, is_list_empty-nil b'.ring) refl,
        b',
        λ a. ground arith,
      )
  deliver_loop-wake (suc fuel) m block s x (y ∷ ys) b enough waits =
      let (links1, done, b1) = deliver-Beside m block s x (y ∷ ys) b waits.0 in
      let block1 = update block x (given res (block x)) in
      let s1 = activate (block x).thread_handle s in
      let same = handles-update block x res (y ∷ ys) in
      let (links, block', rest, b', got) =
        deliver_loop-wake fuel (linked m links1) block1 s1 y ys b1 (omega arith)
          (subst⁻¹ (λ ts. AllWait ts s1.blocked) same waits.1) in
      (
        links,
        block',
        rw (done, is_list_empty-cons b1.ring) rest,
        subst (λ ts. Beside main h (linked m links) (wake ts s1) []) same b',
        λ a. ground (arith, got a),
      )
