-- ===== src/ItemPool/Examples.antt =====
-- A pool with an empty queue at 1 and a free list at 2 of the items 100 and 132.
use so_1920v_li41n.Prelude.{◌≡◌, refl, some, [], ◌∷◌, ◌==◌, if◌then◌else◌}
use so_1920v_li41n.ItemPool.{Pool, tp_submit}
use so_1920v_li41n.ItemPool.Lists.{Holds, tp_submit-Submitted}

abbrev two_free : Pool
two_free = record {
  queue = 1;
  wi_free_list = 2;
  freepool = 100;
  links = record {
    flink = λ a. if a == 1 then 1 else if a == 2 then 100 else if a == 100 then 132 else 2;
    blink = λ a. if a == 1 then 1 else if a == 2 then 132 else if a == 100 then 2 else 100;
  };
  func = λ a. 0;
  arg = λ a. 0;
}

two_free-Holds : Holds two_free [] (100 ∷ 132 ∷ [])
two_free-Holds = record {
  queue = record { chain = (refl, refl); distinct = (refl, tt) };
  free = record {
    chain = (refl, refl, (refl, refl, (refl, refl)));
    distinct = (refl, (refl, (refl, tt)));
  };
  apart = (refl, tt);
}

tp_submit-Submitted_example :
    (p' : Pool) × (tp_submit 7 8 two_free ≡ some p')
    × Holds p' (100 ∷ []) (132 ∷ [])
    × (p'.func 100 ≡ 7)
    × (p'.arg 100 ≡ 8)
tp_submit-Submitted_example = tp_submit-Submitted 7 8 two_free [] (100 ∷ 132 ∷ []) two_free-Holds
