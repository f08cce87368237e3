-- ===== src/BlockingQueue.antt =====
-- aula-05-13a/queue.c: an unbounded queue of pointers, for threads that share memory.
-- Every operation holds the queue's lock, but for the time in which it waits on the condition, so
-- operations are atomic; `none` means that the caller waits.
mod Examples
pub mod Fifo
use so_1920v_li41n.Prelude.{ℕ, Bool, true, false, Option, none, some, ◌==◌, if◌then◌else◌, update}
use so_1920v_li41n.Ring.{
  Addr, Links, container_of, init_list_head, is_list_empty, remove_head_list, insert_tail_list,
}

-- The memory of the nodes: `node_t` is its link and its item. A null item is 0.
pub record Nodes : Type 0 where
  pub links : Links
  pub item : Addr → ℕ
  pub allocated : Addr → Bool

-- What an operation comes to: its result, a wait, or a store through a null pointer.
pub data Outcome (A : Type 0) : Type 0 where
  done : A → Outcome A
  waits : Outcome A
  fault : Outcome A

-- `node` is what `malloc` returns, which the code does not test.
unfoldable pub create_node : Addr → ℕ → Nodes → Outcome Nodes
create_node node item m =
    if node == 0
    then fault
    else done
        (record m { item = update m.item node item; allocated = update m.allocated node true })

unfoldable pub destroy_node : Addr → Nodes → Nodes
destroy_node node m = record m { allocated = update m.allocated node false }

unfoldable pub queue_init : Addr → Nodes → Nodes
queue_init q m = record m { links = init_list_head m.links q }

unfoldable pub queue_put : Addr → Addr → ℕ → Nodes → Outcome Nodes
queue_put q node item m = elim (create_node node item m) [
  | done m' ↦ done (record m' { links = insert_tail_list m'.links q node })
  | waits ↦ waits
  | fault ↦ fault
]

unfoldable pub queue_get : Addr → Nodes → Outcome (ℕ × Nodes)
queue_get q m =
    if is_list_empty m.links q
    then waits
    else let entry = (remove_head_list m.links q).0 in
      let node = container_of entry 0 in
      let m' = record m { links = (remove_head_list m.links q).1 } in
      done (m.item node, destroy_node node m')
