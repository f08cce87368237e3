-- ===== src/BlockingQueue/Examples.antt =====
-- A queue at 600 with the nodes 700 and 710.
use so_1920v_li41n.Prelude.{◌≡◌, refl, true, false, [], ◌∷◌, ◌==◌, if◌then◌else◌}
use so_1920v_li41n.Uthread.Examples.{links}
use so_1920v_li41n.BlockingQueue.{Nodes, done, queue_put, queue_get}
use so_1920v_li41n.BlockingQueue.Fifo.{Queues, queue-Queues}

abbrev nodes : Nodes
nodes = record {
  links = links;
  item = λ n. if n == 700 then 21 else 22;
  allocated = λ n. if n == 700 then true else n == 710;
}

nodes-Queues : Queues nodes 600 (700 ∷ 710 ∷ []) (21 ∷ 22 ∷ [])
nodes-Queues = record {
  ring = record {
    chain = (refl, refl, (refl, refl, (refl, refl)));
    distinct = (refl, (refl, (refl, tt)));
  };
  items = (refl, refl, (refl, refl, tt));
}

queue-Queues_example :
    ((m' : Nodes) × (queue_put 600 720 23 nodes ≡ done m')
      × Queues m' 600 (700 ∷ 710 ∷ 720 ∷ []) (21 ∷ 22 ∷ 23 ∷ []))
    × ((m' : Nodes) × (queue_get 600 nodes ≡ done (21, m'))
        × Queues m' 600 (710 ∷ []) (22 ∷ [])
        × (m'.allocated 700 ≡ false))
queue-Queues_example =
    queue-Queues 600 720 23 nodes (700 ∷ 710 ∷ []) (21 ∷ 22 ∷ []) nodes-Queues refl
