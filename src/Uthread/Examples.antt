-- ===== src/Uthread/Examples.antt =====
-- Runs of the scheduler on a small machine: the main thread 1000, the user threads 2000, 3000, 4000
-- and 5000, of which 2000 runs, 3000 is ready and the others wait on the list at 600.
use so_1920v_li41n.Prelude.{
  ◌+◌, ◌*◌, ◌≡◌, refl, inr, some, [], ◌∷◌, none, inl, arith, ◌==◌, if◌then◌else◌, leb,
}
use so_1920v_li41n.Ring.{Addr, Links}
use so_1920v_li41n.Uthread.{
  Machine, build_thread, save_context, restore_context, context_switch, ut_create, ut_deactivate,
  ut_exit, ut_activate, ut_yield, ut_run, ut_run_resumed, switched, aborted,
}
use so_1920v_li41n.Uthread.Spec.{Spec, yield, exit, create, activate, deactivate}
use so_1920v_li41n.Uthread.Refine.{Refines, running, ut_yield-Refines, ut_deactivate-Refines}
use so_1920v_li41n.Uthread.Lifetime.{
  IsFreed, IsMade, ut_exit-Refines, ut_create-Refines, ut_activate-Refines,
}
use so_1920v_li41n.Uthread.Running.{ut_run-Started, ut_run_resumed_lem, iterate, ut_yield-turns}
use so_1920v_li41n.Uthread.Switch.{context_switch-back, first_cpu, ut_create-first_switch}

abbrev pub main : Addr
main = 1000

-- The ready queue 500, 3008 and the list of waiters 600, 700, 710.
abbrev pub links : Links
links = record {
  flink = λ a.
      if a == 500
      then 3008
      else if a == 3008
      then 500
      else if a == 600
      then 700
      else if a == 700
      then 710
      else if a == 710
      then 600
      else 0;
  blink = λ a.
      if a == 500
      then 3008
      else if a == 3008
      then 500
      else if a == 600
      then 710
      else if a == 700
      then 600
      else if a == 710
      then 700
      else 0;
}

abbrev pub machine : Machine
machine = record {
  number_of_threads = 4;
  ready_queue = 500;
  running_thread = 2000;
  main_thread = 1000;
  links = links;
  thread = λ a. record { context = a * 100 + 30000; function = 7; argument = 8; stack = a * 100 };
  word = λ a. a;
  allocated = λ a. leb 1 a;
  cpu = record { r15 = 1; r14 = 2; r13 = 3; r12 = 4; rbx = 5; rbp = 6; rip = 7; rsp = 230000 };
}

abbrev pub spec : Spec
spec = running 2000 (3000 ∷ []) (4000 ∷ 5000 ∷ [])

pub machine-Refines : Refines main machine spec
machine-Refines = record {
  queue = record { chain = (refl, refl, (refl, refl)); distinct = (refl, (refl, tt)) };
  running = refl;
  main_thread = refl;
  number = refl;
  fits = omega arith;
  once = λ a. ground arith;
}

ut_yield-Refines_example : Refines main (ut_yield machine) (yield spec)
ut_yield-Refines_example =
    ut_yield-Refines main machine 2000 (3000 ∷ []) (4000 ∷ 5000 ∷ []) machine-Refines

ut_deactivate-Refines_example : Refines main (ut_deactivate machine) (deactivate spec)
ut_deactivate-Refines_example =
    ut_deactivate-Refines main machine 2000 (3000 ∷ []) (4000 ∷ 5000 ∷ []) machine-Refines

ut_exit-Refines_example :
    (m' : Machine) × (ut_exit machine ≡ some m')
    × Refines main m' (exit spec)
    × IsFreed machine 2000 m'
ut_exit-Refines_example =
    ut_exit-Refines main machine 2000 (3000 ∷ []) (4000 ∷ 5000 ∷ [])
      (record { descriptor = refl; stack = refl; two = omega arith }) machine-Refines

ut_create-Refines_example :
    (m' : Machine) × (ut_create 6000 600000 77 7 8 machine ≡ some (6000, m'))
    × Refines main m' (create 6000 spec)
    × IsMade machine 6000 600000 7 8 m'
ut_create-Refines_example =
    ut_create-Refines main 6000 600000 77 7 8 machine spec machine-Refines (omega arith)
      (omega arith) (omega arith) refl

ut_activate-Refines_example : Refines main (ut_activate 5000 machine) (activate 5000 spec)
ut_activate-Refines_example = ut_activate-Refines main machine 5000 spec machine-Refines refl

ut_yield-turns_example :
    Refines main (iterate 1 ut_yield machine) (running 3000 (2000 ∷ []) (4000 ∷ 5000 ∷ []))
ut_yield-turns_example =
    ut_yield-turns main machine 2000 [] 3000 [] (4000 ∷ 5000 ∷ []) machine-Refines

-- Before `ut_run`: the thread 3000 is ready.
abbrev idle_machine : Machine
idle_machine = record machine { number_of_threads = 1; running_thread = 0; main_thread = 0 }

ut_run-Started_example :
    (m' : Machine) × (ut_run main idle_machine ≡ switched m') × Refines main m' (running 3000 [] [])
ut_run-Started_example =
    ut_run-Started main idle_machine (3000 ∷ [])
      (record {
        queue = record { chain = (refl, refl, (refl, refl)); distinct = (refl, (refl, tt)) };
        idle = refl;
        number = refl;
        fits = omega arith;
      })
      (λ a. ground arith)

-- The main thread runs again while 4000 waits.
abbrev stuck_machine : Machine
stuck_machine = record machine {
  number_of_threads = 1;
  running_thread = 1000;
  links = record { flink = λ a. a; blink = λ a. a };
}

ut_run_resumed_lem_example : ut_run_resumed stuck_machine ≡ aborted
ut_run_resumed_lem_example = ut_run_resumed_lem main stuck_machine (4000 ∷ []) (record {
  queue = record { chain = (refl, refl); distinct = (refl, tt) };
  running = refl;
  main_thread = refl;
  number = refl;
  fits = omega arith;
  once = λ a. ground arith;
})

-- The machine after a switch from 2000 to 3000.
abbrev switched_machine : Machine
switched_machine = context_switch 2000 3000 machine

switched_rsp : switched_machine.cpu.rsp ≡ 330056
unfolding context_switch save_context restore_context
switched_rsp = refl

context_switch-back_example :
    ((context_switch 3000 2000 switched_machine).running_thread ≡ 2000)
    × ((context_switch 3000 2000 switched_machine).cpu ≡ machine.cpu)
context_switch-back_example =
    context_switch-back 2000 3000 3000 machine switched_machine (omega arith)
      (omega (arith, switched_rsp)) (omega arith) refl (λ k low high. refl)
      (inr (omega (arith, switched_rsp)))

-- The machine after a thread is created in the block 6000 with the stack 600000.
abbrev created_machine : Machine
created_machine = elim (ut_create 6000 600000 77 7 8 machine) [ none ↦ machine | some (h, m) ↦ m ]

created : ut_create 6000 600000 77 7 8 machine ≡ some (6000, created_machine)
unfolding ut_create
created = refl

created_rsp : created_machine.cpu.rsp ≡ 230000
unfolding ut_create ut_activate build_thread
created_rsp = refl

ut_create-first_switch_example :
    ((context_switch 2000 6000 created_machine).cpu ≡ first_cpu 600000 77)
    × ((context_switch 2000 6000 created_machine).word (first_cpu 600000 77).rsp ≡ 0)
ut_create-first_switch_example =
    ut_create-first_switch 6000 600000 77 7 8 machine created 2000 (omega arith)
      (omega (arith, created_rsp)) (inl (omega (arith, created_rsp)))
