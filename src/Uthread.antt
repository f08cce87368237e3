-- ===== src/Uthread.antt =====
-- uthreads/uthread/uthread.c, uthreadinternal.h and ctxswitch.s: the scheduler of user threads.
-- A machine is the scheduler's global variables, the memory that it reads and writes, and the
-- registers that a context switch saves. `malloc`'s results are arguments of `ut_create`.
pub mod Ready
pub mod Refine
pub mod Running
pub mod Examples
pub mod Lifetime
pub mod Spec
pub mod Switch
use so_1920v_li41n.Prelude.{
  ℕ, ◌+◌, ◌-◌, ◌%◌, ◌^◌, Bool, true, false, ◌&&◌, Option, none, some, ◌==◌, ltb, leb, if◌then◌else◌,
  update,
}
use so_1920v_li41n.Ring.{
  Addr, Links, container_of, init_list_head, is_list_empty, remove_head_list, insert_tail_list,
}

-- The registers that `context_switch` saves, the stack pointer and the address to return to.
pub record Cpu : Type 0 where
  pub r15 : ℕ
  pub r14 : ℕ
  pub r13 : ℕ
  pub r12 : ℕ
  pub rbx : ℕ
  pub rbp : ℕ
  pub rip : ℕ
  pub rsp : Addr

-- UTHREAD, less its `link`, which is a cell of the machine's links.
pub record Descriptor : Type 0 where
  pub context : Addr
  pub function : ℕ
  pub argument : ℕ
  pub stack : Addr

pub record Machine : Type 0 where
  pub number_of_threads : ℕ
  pub ready_queue : Addr  -- where the sentinel lies; no operation changes it
  pub running_thread : Addr
  pub main_thread : Addr
  pub links : Links
  pub thread : Addr → Descriptor
  pub word : Addr → ℕ  -- the 64-bit words of the stacks
  pub allocated : Addr → Bool  -- the blocks that `malloc` gave and `free` has not taken back
  pub cpu : Cpu

abbrev pub null : Addr
null = 0

-- The offset of `link` in UTHREAD, behind the pointer `context`.
abbrev pub link_offset : ℕ
link_offset = 8

-- `&thread->link`
abbrev pub link_of : Addr → Addr
link_of thread = thread + link_offset

abbrev pub stack_size : ℕ
stack_size = 32768

abbrev pub sizeof_context : ℕ
sizeof_context = 56

abbrev pub sizeof_ulong : ℕ
sizeof_ulong = 8

unfoldable pub extract_next_thread : Machine → Addr × Machine
extract_next_thread m = if is_list_empty m.links m.ready_queue then (m.main_thread, m) else (
  container_of (remove_head_list m.links m.ready_queue).0 link_offset,
  record m { links = (remove_head_list m.links m.ready_queue).1 },
)

-- The call, which pushes the return address, and the six pushes.
unfoldable pub save_context : Machine → Machine
save_context m =
    let sp = m.cpu.rsp in
    let word = update m.word (sp - 8) m.cpu.rip in
    let word = update word (sp - 16) m.cpu.rbp in
    let word = update word (sp - 24) m.cpu.rbx in
    let word = update word (sp - 32) m.cpu.r12 in
    let word = update word (sp - 40) m.cpu.r13 in
    let word = update word (sp - 48) m.cpu.r14 in
    let word = update word (sp - 56) m.cpu.r15 in
    record m { word = word; cpu = record (m.cpu) { rsp = sp - 56 } }

-- The six pops and the `ret`, on the stack of `next`.
unfoldable pub restore_context : Addr → Machine → Machine
restore_context next m =
    let sp = (m.thread next).context in
    record m {
      cpu = record {
        r15 = m.word sp;
        r14 = m.word (sp + 8);
        r13 = m.word (sp + 16);
        r12 = m.word (sp + 24);
        rbx = m.word (sp + 32);
        rbp = m.word (sp + 40);
        rip = m.word (sp + 48);
        rsp = sp + 56;
      };
    }

unfoldable pub context_switch : Addr → Addr → Machine → Machine
context_switch current next m =
    let m = save_context m in
    let saved = record (m.thread current) { context = m.cpu.rsp } in
    let m = record m { thread = update m.thread current saved } in
    let m = record m { running_thread = next } in restore_context next m

-- `free(thread->stack); free(thread);`, `none` if either block is not allocated.
unfoldable pub cleanup_thread : Addr → Machine → Option Machine
cleanup_thread thread m =
    let stack = (m.thread thread).stack in
    let freed = update m.allocated stack false in
    if m.allocated stack && freed thread
    then some (record m { allocated = update freed thread false })
    else none

unfoldable pub internal_exit : Addr → Addr → Machine → Option Machine
internal_exit thread next m =
    let m = record m { running_thread = next } in
    elim (cleanup_thread thread m) [ none ↦ none | some m' ↦ some (restore_context next m') ]

unfoldable pub schedule : Machine → Machine
schedule m =
    let (next_thread, m) = extract_next_thread m in context_switch m.running_thread next_thread m

unfoldable pub ut_init : Machine → Machine
ut_init m = record m { links = init_list_head m.links m.ready_queue }

-- What a call of `ut_run` has come to: it has returned, it has switched to a user thread, from
-- which the context saved in `main_thread` will resume it, or an assertion has failed.
pub data Run : Type 0 where
  returned : Machine → Run
  switched : Machine → Run
  aborted : Run

-- `ut_run` up to its context switch; `main` is the address of its local UTHREAD.
unfoldable pub ut_run : Addr → Machine → Run
ut_run main m =
    if m.running_thread == null
    then (if is_list_empty m.links m.ready_queue
        then returned m
        else switched (schedule (record m { main_thread = main; running_thread = main })))
    else aborted

-- `ut_run` behind its context switch.
unfoldable pub ut_run_resumed : Machine → Run
ut_run_resumed m =
    if is_list_empty m.links m.ready_queue && m.number_of_threads == 0
    then returned (record m { running_thread = null; main_thread = null })
    else aborted

-- `number_of_threads` is an unsigned long.
unfoldable pub ut_exit : Machine → Option Machine
ut_exit m =
    let m = record m { number_of_threads = (m.number_of_threads + 2 ^ 64 - 1) % 2 ^ 64 } in
    let (next, m) = extract_next_thread m in internal_exit m.running_thread next m

unfoldable pub ut_yield : Machine → Machine
ut_yield m =
    if is_list_empty m.links m.ready_queue
    then m
    else schedule
        (record m { links = insert_tail_list m.links m.ready_queue (link_of m.running_thread) })

unfoldable pub ut_self : Machine → Addr
ut_self m = m.running_thread

unfoldable pub ut_deactivate : Machine → Machine
ut_deactivate m = schedule m

unfoldable pub ut_activate : Addr → Machine → Machine
ut_activate handle m = record m { links = insert_tail_list m.links m.ready_queue (link_of handle) }

-- `memset(stack, 0, STACK_SIZE)`
unfoldable pub zero_stack : Addr → (Addr → ℕ) → Addr → ℕ
zero_stack stack word a = if leb stack a && ltb a (stack + stack_size) then 0 else word a

-- `ut_create` between its assertion and `ut_activate`: the blocks are `thread` and `stack`, and
-- `internal_start` is the address of that function.
unfoldable pub build_thread :
    (thread stack internal_start function argument : ℕ) → Machine → Machine
build_thread thread stack internal_start function argument m =
    let context = stack + stack_size - sizeof_context - sizeof_ulong in
    let word = zero_stack stack m.word in
    let word = update word context 0x77777777 in
    let word = update word (context + 8) 0x66666666 in
    let word = update word (context + 16) 0x55555555 in
    let word = update word (context + 24) 0x44444444 in
    let word = update word (context + 32) 0x11111111 in
    let word = update word (context + 40) 0x00000000 in
    let word = update word (context + 48) internal_start in
    let descriptor : Descriptor = record {
      context = context;
      function = function;
      argument = argument;
      stack = stack;
    } in
    record m {
      allocated = update (update m.allocated thread true) stack true;
      word = word;
      thread = update m.thread thread descriptor;
      number_of_threads = (m.number_of_threads + 1) % 2 ^ 64;
    }

-- `thread` and `stack` are what the two calls of `malloc` return. A null `thread` is written
-- through before it is tested, and a null `stack` fails the assertion: both are `none`.
unfoldable pub ut_create :
    (thread stack internal_start function argument : ℕ) → Machine → Option (Addr × Machine)
ut_create thread stack internal_start function argument m =
    if thread == null
    then none
    else if stack == null
    then none
    else some
        (thread, ut_activate thread (build_thread thread stack internal_start function argument m))
