-- ===== src/Ring/Examples.antt =====
-- A list headed by the sentinel 1, with the entries 2, 3 and 4.
use so_1920v_li41n.Prelude.{◌+◌, ◌-◌, ◌≡◌, refl, false, [], ◌∷◌, ◌==◌, if◌then◌else◌}
use so_1920v_li41n.Ring.{
  Links, insert_tail_list, insert_head_list, remove_head_list, remove_tail_list, remove_entry_list,
}
use so_1920v_li41n.Ring.Chain.{IsRing}
use so_1920v_li41n.Ring.Insert.{insert_tail_list-IsRing}
use so_1920v_li41n.Ring.Remove.{
  remove_head_list-IsRing, remove_entry_list-IsRing, remove_entry_list-result,
}
use so_1920v_li41n.Ring.Mirror.{insert_head_list-IsRing, remove_tail_list-IsRing}

abbrev three : Links
three = record {
  flink = λ a. if a == 4 then 1 else a + 1;
  blink = λ a. if a == 1 then 4 else a - 1;
}

three-IsRing : IsRing three 1 (2 ∷ 3 ∷ 4 ∷ [])
three-IsRing = record {
  chain = (refl, refl, (refl, refl, (refl, refl, (refl, refl))));
  distinct = (refl, (refl, (refl, (refl, tt))));
}

insert_tail_list-IsRing_example : IsRing (insert_tail_list three 1 9) 1 (2 ∷ 3 ∷ 4 ∷ 9 ∷ [])
insert_tail_list-IsRing_example = insert_tail_list-IsRing 9 three-IsRing refl

insert_head_list-IsRing_example : IsRing (insert_head_list three 1 9) 1 (9 ∷ 2 ∷ 3 ∷ 4 ∷ [])
insert_head_list-IsRing_example = insert_head_list-IsRing 9 three-IsRing refl

remove_head_list-IsRing_example :
    ((remove_head_list three 1).0 ≡ 2) × IsRing (remove_head_list three 1).1 1 (3 ∷ 4 ∷ [])
remove_head_list-IsRing_example = remove_head_list-IsRing three-IsRing

remove_tail_list-IsRing_example :
    ((remove_tail_list three 1).0 ≡ 4) × IsRing (remove_tail_list three 1).1 1 (2 ∷ 3 ∷ [])
remove_tail_list-IsRing_example = remove_tail_list-IsRing {xs = 2 ∷ 3 ∷ []} three-IsRing

remove_entry_list-IsRing_example : IsRing (remove_entry_list three 3).1 1 (2 ∷ 4 ∷ [])
remove_entry_list-IsRing_example = remove_entry_list-IsRing (2 ∷ []) 3 (4 ∷ []) three-IsRing

remove_entry_list-result_example : (remove_entry_list three 3).0 ≡ false
remove_entry_list-result_example = remove_entry_list-result (2 ∷ []) 3 (4 ∷ []) three-IsRing
