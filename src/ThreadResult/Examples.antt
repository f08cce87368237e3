-- ===== src/ThreadResult/Examples.antt =====
-- Runs on the machine of Uthread/Examples.antt: the thread 2000 exits while 4000 and 5000 wait for
-- its result in the wait blocks 700 and 710.
use so_1920v_li41n.Prelude.{
  Option, none, ◌≡◌, refl, false, some, [], ◌∷◌, arith, ◌==◌, if◌then◌else◌,
}
use so_1920v_li41n.Ring.{
  Links, is_list_empty, remove_head_list, remove_entry_list, insert_tail_list, container_of,
}
use so_1920v_li41n.Uthread.Spec.{exit, deactivate, create}
use so_1920v_li41n.Uthread.{restore_context, extract_next_thread, ut_activate}
use so_1920v_li41n.Uthread.Lifetime.{HasBlocks}
use so_1920v_li41n.ThreadResult.Create.{ut_create64, ut_create64-Beside}
use so_1920v_li41n.Uthread.Refine.{Refines, running}
use so_1920v_li41n.Uthread.Examples.{main, machine, spec, machine-Refines}
use so_1920v_li41n.Synch.Waiters.{Beside}
use so_1920v_li41n.Synch.Event.Set.{wake}
use so_1920v_li41n.ThreadResult.{
  World, stopped, ut_try_get_thread_result, hand_over, deliver_loop, deliver, internal_exit,
  cleanup_thread, ut_exit, ut_get_thread_result, ut_get_resumed, schedule_resumed,
}
use so_1920v_li41n.ThreadResult.Asked.{asked-Exited}
use so_1920v_li41n.ThreadResult.Exit.{Exited, ut_exit-Exited}
use so_1920v_li41n.ThreadResult.Get.{ut_exit-Taken, ut_get_thread_result-stopped}

-- The ready queue 500, 3008 and the list 2040, 700, 710.
abbrev links : Links
links = record {
  flink = λ a.
      if a == 500
      then 3008
      else if a == 3008
      then 500
      else if a == 2040
      then 700
      else if a == 700
      then 710
      else if a == 710
      then 2040
      else 0;
  blink = λ a.
      if a == 500
      then 3008
      else if a == 3008
      then 500
      else if a == 2040
      then 710
      else if a == 700
      then 2040
      else if a == 710
      then 700
      else 0;
}

abbrev awaited : World
awaited = record {
  machine = record machine { links = links };
  block = λ a. record { thread_handle = if a == 700 then 4000 else 5000; result = 0 };
  result = λ t. record { has_result = false; res = 0 };
}

awaited-Beside : Beside main 2040 awaited.machine spec (700 ∷ 710 ∷ [])
awaited-Beside = record {
  refines = record {
    queue = record { chain = (refl, refl, (refl, refl)); distinct = (refl, (refl, tt)) };
    running = refl;
    main_thread = refl;
    number = refl;
    fits = omega arith;
    once = λ a. ground arith;
  };
  ring = record {
    chain = (refl, refl, (refl, refl, (refl, refl)));
    distinct = (refl, (refl, (refl, tt)));
  };
  apart = (refl, (refl, (refl, tt)));
}

ut_exit-Exited_example :
    (w' : World) × (ut_exit 2 42 awaited ≡ some w')
    × Refines main w'.machine (exit (wake (4000 ∷ 5000 ∷ []) spec))
    × Exited 2000 42 (700 ∷ 710 ∷ []) awaited w'
ut_exit-Exited_example =
    ut_exit-Exited main 2000 42 (3000 ∷ []) (4000 ∷ 5000 ∷ []) 2 awaited (700 ∷ 710 ∷ [])
      awaited-Beside (record { descriptor = refl; stack = refl; two = omega arith }) refl
      (omega arith) (refl, (refl, tt))

abbrev world_of : Option World → World
world_of none = awaited
world_of (some w) = w

-- The world behind the exit of 2000, in which 3000 runs.
abbrev left : World
left = world_of (ut_exit 2 42 awaited)

awaited-left : ut_exit 2 42 awaited ≡ some left
unfolding ut_exit hand_over deliver_loop deliver internal_exit cleanup_thread ut_activate
    extract_next_thread restore_context is_list_empty remove_head_list remove_entry_list
    insert_tail_list container_of
awaited-left = refl

ut_exit-Taken_example : (ut_try_get_thread_result 2000 left ≡ none) × (ut_get_resumed 710 left ≡ 42)
unfolding ut_exit hand_over deliver_loop deliver internal_exit cleanup_thread ut_activate
    extract_next_thread restore_context is_list_empty remove_head_list remove_entry_list
    insert_tail_list container_of
ut_exit-Taken_example =
    ut_exit-Taken main 2000 42 (3000 ∷ []) (4000 ∷ 5000 ∷ []) (700 ∷ 710 ∷ []) 2 awaited {w' = left}
      710 awaited-Beside (record { descriptor = refl; stack = refl; two = omega arith }) refl
      (omega arith) (refl, (refl, tt)) awaited-left (omega arith)

-- A thread 2000 asks for the result of 3000, which nobody waits for.
abbrev asking : World
asking = record awaited {
  machine = record machine {
    links = record {
      flink = λ a. if a == 500 then 3008 else if a == 3008 then 500 else 3040;
      blink = λ a. if a == 500 then 3008 else if a == 3008 then 500 else 3040;
    };
  };
}

asking-Beside : Beside main 3040 asking.machine spec []
asking-Beside = record {
  refines = record {
    queue = record { chain = (refl, refl, (refl, refl)); distinct = (refl, (refl, tt)) };
    running = refl;
    main_thread = refl;
    number = refl;
    fits = omega arith;
    once = λ a. ground arith;
  };
  ring = record { chain = (refl, refl); distinct = (refl, tt) };
  apart = (refl, tt);
}

ut_get_thread_result-stopped_example :
    (w' : World) × (ut_get_thread_result 720 3000 asking ≡ some (stopped, w'))
    × ((w'.block 720).thread_handle ≡ 2000)
    × Beside main 3040 w'.machine (deactivate spec) (720 ∷ [])
    × (w'.machine.allocated ≡ asking.machine.allocated)
    × ((w'.machine.thread 3000).stack ≡ (asking.machine.thread 3000).stack)
    × (w'.result ≡ asking.result)
ut_get_thread_result-stopped_example =
    ut_get_thread_result-stopped main 720 3000 2000 asking (3000 ∷ []) (4000 ∷ 5000 ∷ []) []
      asking-Beside (omega arith) refl refl refl refl

asked-Exited_example :
    (w1 : World) × (w2 : World) × (ut_get_thread_result 720 3000 asking ≡ some (stopped, w1))
    × (w1.machine.running_thread ≡ 3000)
    × (ut_exit 1 42 w1 ≡ some w2)
    × (ut_get_resumed 720 w2 ≡ 42)
    × Refines main w2.machine (exit (wake (2000 ∷ []) (running 3000 [] (4000 ∷ 5000 ∷ 2000 ∷ []))))
    × (schedule_resumed 3000 w2 ≡ none)
asked-Exited_example =
    asked-Exited main 720 3000 2000 42 asking [] (4000 ∷ 5000 ∷ []) asking-Beside (omega arith)
      (record { descriptor = refl; stack = refl; two = omega arith }) refl refl refl

-- The world in which a thread is created.
abbrev created : World
created = record awaited { machine = machine }

ut_create64-Beside_example :
    (w' : World) × (ut_create64 6000 600000 77 7 8 created ≡ some (6000, w'))
    × Beside main 6040 w'.machine (create 6000 spec) []
    × HasBlocks w'.machine 6000
    × ((w'.result 6000).has_result ≡ false)
    × ((restore_context 6000 w'.machine).cpu.rip ≡ 77)
ut_create64-Beside_example =
    ut_create64-Beside main 6000 600000 77 7 8 created spec machine-Refines (omega arith)
      (omega arith) (omega arith) (omega arith) refl refl
