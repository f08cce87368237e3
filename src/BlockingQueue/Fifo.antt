-- ===== src/BlockingQueue/Fifo.antt =====
-- queue_put and queue_get as the operations of a queue, with the nodes that they allocate and free.
use so_1920v_li41n.Prelude.{
  Bool-cases, inl, inr, ℕ, ◌≡◌, refl, Bool, true, false, List, [], ◌∷◌, ◌++◌, arith, has, ◌==◌,
  if◌then◌else◌, update,
}
use so_1920v_li41n.Ring.{Addr, Links, remove_head_list, insert_tail_list}
use so_1920v_li41n.Ring.Chain.{IsRing, container_of-zero}
use so_1920v_li41n.Ring.Insert.{
  init_list_head-IsRing, is_list_empty-nil, is_list_empty-cons, insert_tail_list-IsRing,
}
use so_1920v_li41n.Ring.Remove.{remove_head_list-IsRing}
use so_1920v_li41n.BlockingQueue.{
  Nodes, Outcome, done, waits, fault, create_node, destroy_node, queue_init, queue_put, queue_get,
}

-- The nodes hold the items, and are allocated.
abbrev pub HoldItems : Nodes → List Addr → List ℕ → Type 0
HoldItems m [] [] = Unit
HoldItems m (n ∷ ns) (x ∷ xs) = (m.item n ≡ x) × (m.allocated n ≡ true) × HoldItems m ns xs
HoldItems m _ _ = ⊥

-- The queue at `q` is the list of the nodes `ns`, which hold the items `xs`, the oldest first.
pub record Queues (m : Nodes) (q : Addr) (ns : List Addr) (xs : List ℕ) : Type 0 where
  pub ring : IsRing m.links q ns
  pub items : HoldItems m ns xs

pub queue_init-Queues : (q : Addr) (m : Nodes) → Queues (queue_init q m) q [] []
unfolding queue_init
queue_init-Queues q m = record { ring = init_list_head-IsRing m.links q; items = tt }

HoldItems-update :
    (m : Nodes) (ns : List Addr) (xs : List ℕ) (links : Links) (n : Addr) (x : ℕ) (b : Bool)
    → has n ns ≡ false
    → HoldItems m ns xs
    → HoldItems
        (record { links = links; item = update m.item n x; allocated = update m.allocated n b })
        ns
        xs
HoldItems-update m [] [] links n x b out h = tt
HoldItems-update m [] (y ∷ ys) links n x b out h = h
HoldItems-update m (k ∷ ks) [] links n x b out h = h
HoldItems-update m (k ∷ ks) (y ∷ ys) links n x b out h =
    (ground arith, ground arith, HoldItems-update m ks ys links n x b (ground arith) h.2)

HoldItems-free :
    (m : Nodes) (ns : List Addr) (xs : List ℕ) (links : Links) (n : Addr)
    → has n ns ≡ false
    → HoldItems m ns xs
    → HoldItems
        (record { links = links; item = m.item; allocated = update m.allocated n false })
        ns
        xs
HoldItems-free m [] [] links n out h = tt
HoldItems-free m [] (y ∷ ys) links n out h = h
HoldItems-free m (k ∷ ks) [] links n out h = h
HoldItems-free m (k ∷ ks) (y ∷ ys) links n out h =
    (ground arith, ground arith, HoldItems-free m ks ys links n (ground arith) h.2)

HoldItems-snoc :
    (m : Nodes) (ns : List Addr) (xs : List ℕ) (n : Addr) (x : ℕ)
    → HoldItems m ns xs
    → m.item n ≡ x
    → m.allocated n ≡ true
    → HoldItems m (ns ++ n ∷ []) (xs ++ x ∷ [])
HoldItems-snoc m [] [] n x h e a = (e, a, tt)
HoldItems-snoc m [] (y ∷ ys) n x h e a = absurd h
HoldItems-snoc m (k ∷ ks) [] n x h e a = absurd h
HoldItems-snoc m (k ∷ ks) (y ∷ ys) n x h e a = (h.0, h.1, HoldItems-snoc m ks ys n x h.2 e a)

-- `queue_put` puts the item behind the others, in the node that `malloc` gave; without memory it
-- stores through a null pointer.
queue_put-Queues :
    (q node item : ℕ) (m : Nodes) (ns : List Addr) (xs : List ℕ)
    → Queues m q ns xs
    → has node (q ∷ ns) ≡ false
    → if node == 0
      then queue_put q node item m ≡ fault
      else ((m' : Nodes) × (queue_put q node item m ≡ done m')
          × Queues m' q (ns ++ node ∷ []) (xs ++ item ∷ []))
unfolding queue_put create_node
queue_put-Queues q node item m ns xs r out = elim (Bool-cases (node == 0)) [
  | inl null ↦ rw (null, queue_put, create_node)
  | inr set ↦
      rw (set, queue_put, create_node)
        (
          record {
            links = insert_tail_list m.links q node;
            item = update m.item node item;
            allocated = update m.allocated node true;
          },
          refl,
          record {
            ring = insert_tail_list-IsRing node r.ring out;
            items =
                HoldItems-snoc
                  (record {
                    links = insert_tail_list m.links q node;
                    item = update m.item node item;
                    allocated = update m.allocated node true;
                  })
                  ns xs node item
                  (HoldItems-update m ns xs (insert_tail_list m.links q node) node item true
                    (ground arith) r.items)
                  (ground arith) (ground arith);
          },
        )
]

-- What a removal from the items `xs` comes to.
abbrev pub Got : Addr → Nodes → List Addr → List ℕ → Outcome (ℕ × Nodes) → Type 0
Got q m (n ∷ ns) (x ∷ xs) result =
    (m' : Nodes) × (result ≡ done (x, m')) × Queues m' q ns xs × (m'.allocated n ≡ false)
Got q m _ _ result = result ≡ waits

-- `queue_get` waits on an empty queue; on another it returns the oldest item and frees its node.
queue_get-Queues :
    (q : Addr) (m : Nodes) (ns : List Addr) (xs : List ℕ)
    → Queues m q ns xs
    → Got q m ns xs (queue_get q m)
unfolding queue_get destroy_node
queue_get-Queues q m [] [] r = rw (is_list_empty-nil r.ring)
queue_get-Queues q m [] (y ∷ ys) r = absurd r.items
queue_get-Queues q m (n ∷ ns) [] r = absurd r.items
queue_get-Queues q m (n ∷ ns) (x ∷ xs) r =
    let (first, ring) = remove_head_list-IsRing r.ring in
    let links = (remove_head_list m.links q).1 in
    (
      record { links = links; item = m.item; allocated = update m.allocated n false },
      rw (is_list_empty-cons r.ring) (ground (arith, first, container_of-zero n, r.items.0)),
      record {
        ring = ring;
        items = HoldItems-free m ns xs links n (ground (arith, r.ring.distinct.1.0)) r.items.2;
      },
      ground arith,
    )

-- On a queue of the items `xs`: `queue_put` puts its item behind them, in the node that `malloc` gave,
-- and stores through a null pointer without memory; `queue_get` waits if there is no item, and
-- otherwise returns the oldest one and frees its node.
pub queue-Queues :
    (q node item : ℕ) (m : Nodes) (ns : List Addr) (xs : List ℕ)
    → Queues m q ns xs
    → has node (q ∷ ns) ≡ false
    → (if node == 0
        then queue_put q node item m ≡ fault
        else ((m' : Nodes) × (queue_put q node item m ≡ done m')
            × Queues m' q (ns ++ node ∷ []) (xs ++ item ∷ [])))
      × Got q m ns xs (queue_get q m)
queue-Queues q node item m ns xs r out =
    (queue_put-Queues q node item m ns xs r out, queue_get-Queues q m ns xs r)
