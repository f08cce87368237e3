-- ===== src/Uthread/Switch.antt =====
-- What a context switch saves and restores, and the first switch to a new thread.
use native.Mathlib.Nat.{add-zero}
use so_1920v_li41n.Prelude.{◌∙◌, ap, ℕ, ◌+◌, ◌-◌, ◌≤◌, ◌<◌, ◌≡◌, ◌≢◌, refl, ◌⊎◌, some, arith}
use so_1920v_li41n.Ring.{Addr}
use so_1920v_li41n.Uthread.{
  Machine, Cpu, stack_size, save_context, restore_context, context_switch, ut_create, build_thread,
  zero_stack, ut_activate,
}

-- The frame that a switch pushes lies below the stack pointer; no other word changes.
save_context-outside :
    (m : Machine) (a : Addr)
    → 56 ≤ m.cpu.rsp
    → (a + 56 < m.cpu.rsp) ⊎ (m.cpu.rsp ≤ a)
    → (save_context m).word a ≡ m.word a
unfolding save_context
save_context-outside m a room out = ground arith

-- The registers that a machine finds in the frame at `sp`.
abbrev frame : (Addr → ℕ) → Addr → Cpu
frame word sp = record {
  r15 = word sp;
  r14 = word (sp + 8);
  r13 = word (sp + 16);
  r12 = word (sp + 24);
  rbx = word (sp + 32);
  rbp = word (sp + 40);
  rip = word (sp + 48);
  rsp = sp + 56;
}

save_context-frame :
    (m : Machine) → 56 ≤ m.cpu.rsp → frame (save_context m).word (save_context m).cpu.rsp ≡ m.cpu
unfolding save_context
save_context-frame m room = ground arith

frame-eq :
    (word word' : Addr → ℕ) (sp : Addr)
    → ((k : ℕ) → k ≤ 48 → word (sp + k) ≡ word' (sp + k))
    → frame word sp ≡ frame word' sp
frame-eq word word' sp same = ground (
  arith,
  same 8 (omega arith),
  same 16 (omega arith),
  same 24 (omega arith),
  same 32 (omega arith),
  same 40 (omega arith),
  same 48 (omega arith),
  add-zero sp,
  same 0 (omega arith),
)

context_switch-cpu :
    (c a : Addr) (m : Machine)
    → c ≢ a
    → (context_switch c a m).cpu ≡ frame (save_context m).word (m.thread a).context
unfolding context_switch save_context restore_context
context_switch-cpu c a m ne = ground arith

context_switch-saved :
    (a b : Addr) (m : Machine)
    → (((context_switch a b m).thread a).context ≡ (save_context m).cpu.rsp)
      × ((context_switch a b m).word ≡ (save_context m).word)
unfolding context_switch restore_context
context_switch-saved a b m = (ground arith, refl)

save_context-rsp : (m : Machine) → (save_context m).cpu.rsp ≡ m.cpu.rsp - 56
unfolding save_context
save_context-rsp m = refl

context_switch-target : (a b : Addr) (m : Machine) → (context_switch a b m).running_thread ≡ b
unfolding context_switch restore_context
context_switch-target a b m = refl

-- The switch away from `a` leaves what a later switch back to `a` restores: every register, the
-- return address and the stack pointer. In between, at a machine `m2` that runs `c`, the words of
-- the frame and the context pointer of `a` are as the switch left them, and the frame that the
-- switch back pushes for `c` does not overlap that of `a`.
pub context_switch-back :
    (a b c : Addr) (m m2 : Machine)
    → 56 ≤ m.cpu.rsp
    → 56 ≤ m2.cpu.rsp
    → c ≢ a
    → (m2.thread a).context ≡ ((context_switch a b m).thread a).context
    → ((k : Addr) → m.cpu.rsp ≤ k + 56 → k < m.cpu.rsp → m2.word k ≡ (context_switch a b m).word k)
    → (m2.cpu.rsp + 56 ≤ m.cpu.rsp) ⊎ (m.cpu.rsp + 56 ≤ m2.cpu.rsp)
    → ((context_switch c a m2).running_thread ≡ a) × ((context_switch c a m2).cpu ≡ m.cpu)
context_switch-back a b c m m2 room room2 ne ctx kept apart =
    let (saved, words) = context_switch-saved a b m in
    let sp = save_context-rsp m in
    (
      context_switch-target c a m2,
      context_switch-cpu c a m2 ne
          ∙ rw (ctx, saved)
              (frame-eq (save_context m2).word (save_context m).word (save_context m).cpu.rsp
                (λ k small.
                  save_context-outside m2 ((save_context m).cpu.rsp + k) room2 (omega arith)
                  ∙ kept ((save_context m).cpu.rsp + k) (omega arith) (omega arith)
                  ∙ ap (λ (f : Addr → ℕ). f ((save_context m).cpu.rsp + k)) words))
          ∙ save_context-frame m room,
    )

-- The registers with which a new thread starts.
abbrev pub first_cpu : Addr → Addr → Cpu
first_cpu stack entry = record {
  r15 = 0x77777777;
  r14 = 0x66666666;
  r13 = 0x55555555;
  r12 = 0x44444444;
  rbx = 0x11111111;
  rbp = 0;
  rip = entry;
  rsp = stack + 32760;
}

module _ (t stack entry f x : ℕ) (m : Machine) {h : Addr} {m' : Machine}
    (made : ut_create t stack entry f x m ≡ some (h, m')) where
  ut_create-frame :
      ((m'.thread t).context ≡ stack + 32704)
      × (frame m'.word (stack + 32704) ≡ first_cpu stack entry)
      × (m'.word (stack + 32760) ≡ 0)
      × ((m'.thread t).stack ≡ stack)
      × (m'.cpu ≡ m.cpu)
  unfolding ut_create build_thread ut_activate zero_stack
  ut_create-frame = ground arith

  -- The first switch to a thread that `ut_create` made, from a thread `c` whose stack is another
  -- one, enters `internal_start` at the top of the new stack, on a null word, with `rbp` null.
  pub ut_create-first_switch :
      (c : Addr)
      → c ≢ t
      → 56 ≤ m'.cpu.rsp
      → (m'.cpu.rsp ≤ stack) ⊎ (stack + stack_size + 56 ≤ m'.cpu.rsp)
      → ((context_switch c t m').cpu ≡ first_cpu stack entry)
        × ((context_switch c t m').word (first_cpu stack entry).rsp ≡ 0)
  ut_create-first_switch c ne room apart =
      let (ctx, regs, top, _, _) = ut_create-frame in
      let (_, words) = context_switch-saved c t m' in
      (
        context_switch-cpu c t m' ne
            ∙ rw ctx (
                frame-eq (save_context m').word m'.word (stack + 32704)
                  (λ k small. save_context-outside m' (stack + 32704 + k) room (omega arith)))
            ∙ regs,
        rw words (save_context-outside m' (stack + 32760) room (omega arith) ∙ top),
      )
