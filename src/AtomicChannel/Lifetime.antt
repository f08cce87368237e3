-- ===== src/AtomicChannel/Lifetime.antt =====
-- mc_create, mc_open and mc_destroy of memchannel2/memchan.c, with every error path of mc_create.
-- `sizeof_channel` is sizeof(mem_channel_t); `items` and `space` tell whether the two calls of
-- sem_init succeed. The arithmetic on the two ints is taken not to overflow.
use so_1920v_li41n.Prelude.{
  ℕ, ◌+◌, ◌-◌, ◌*◌, ◌≡◌, refl, Bool, true, false, Option, none, some, ◌∷◌, arith, ◌==◌,
  if◌then◌else◌,
}
use so_1920v_li41n.Shmem.{
  Calls, munmap, shmem_create, shmem_internal_map, shmem_open, shmem_destroy,
}
use so_1920v_li41n.AtomicChannel.{Shared, new_channel}

-- The fields of `mem_channel_t` that the creation sets for good, around those of `Shared`.
pub record Region : Type 0 where
  pub shared : Shared
  pub elem_size : ℕ
  pub total_size : ℕ
  pub ownerid : ℕ

-- The system with the semaphores that were initialised and not destroyed again.
pub record System : Type 0 where
  pub calls : Calls
  pub semaphores : ℕ

-- What the label `error` makes of a region at `base`, with `created` semaphores.
unfoldable pub clean_up : (name base size created : ℕ) → System → System
clean_up name base size created s = record {
  calls = shmem_destroy name base size s.calls;
  semaphores = s.semaphores - created;
}

-- `none` is a store through the null pointer; the channel is its address and contents, if any.
unfoldable pub mc_create :
    (sizeof_channel elem_size capacity pid name : ℕ)
    → (ℕ → ℕ)
    → (shm_open : Option ℕ) (ftruncate : Bool) (mmap : Option ℕ) (items space : Bool) → System
    → Option (Option (ℕ × Region) × System)
mc_create sizeof_channel elem_size capacity pid name buffer shm_open ftruncate mmap items space s =
    let size = sizeof_channel + elem_size * capacity in
    let (made, after) = shmem_create size shm_open ftruncate mmap s.calls in
    let s = record s { calls = after } in
    elim made [
      | none ↦ none
      | some rb ↦
          let s1 = record s { semaphores = s.semaphores + 1 } in
          let s2 = record s { semaphores = s.semaphores + 2 } in
          let region : Region = record {
            shared = new_channel capacity buffer;
            elem_size = elem_size;
            total_size = size;
            ownerid = pid;
          } in
          some (
            if items
            then (if space then (some (rb, region), s2) else (none, clean_up name rb size 1 s1))
            else (none, clean_up name rb size 0 s))
    ]

unfoldable pub mc_open : (shm_open fstat mmap : Option ℕ) → Calls → Option ℕ × Calls
mc_open shm_open fstat mmap c = shmem_open shm_open fstat mmap c

-- The process `pid` destroys the channel at `base`.
unfoldable pub mc_destroy : (pid name base : ℕ) → Region → System → System
mc_destroy pid name base rb s =
    if rb.ownerid == pid
    then record {
      calls = shmem_destroy name base rb.total_size s.calls;
      semaphores = s.semaphores - 2;
    }
    else record s { calls = munmap base rb.total_size s.calls }

-- `after` has opened and closed one descriptor since `s`, has made one mapping and unmapped it, has called
-- unlink on the name if `removed`, and has the semaphores of `s` and `left` more.
pub record Undone (name size left : ℕ) (removed : Bool) (s after : System) : Type 0 where
  pub base : ℕ
  pub fd : ℕ
  pub opened : after.calls.opened ≡ fd ∷ s.calls.opened
  pub closed : after.calls.closed ≡ fd ∷ s.calls.closed
  pub mapped : after.calls.mapped ≡ (base, size) ∷ s.calls.mapped
  pub unmapped : after.calls.unmapped ≡ (base, size) ∷ s.calls.unmapped
  pub unlinked :
      after.calls.unlinked ≡ (if removed then name ∷ s.calls.unlinked else s.calls.unlinked)
  pub semaphores : after.semaphores ≡ s.semaphores + left

-- What `mc_create` has come to, and what `mc_destroy`, called by the process `pid'`, makes of it.
abbrev pub Ended :
    (size pid pid' name : ℕ) → Option ℕ → System → Option (Option (ℕ × Region) × System) → Type 0
Ended size pid pid' name made s none = made ≡ none
Ended size pid pid' name made s (some (none, after)) = Undone name size 0 true s after
Ended size pid pid' name made s (some (some (base, rb), after)) =
    Undone name size (if pid == pid' then 0 else 2) (pid == pid') s
      (mc_destroy pid' name base rb after)

-- `mc_create` stores through a null pointer where there is no shared memory. Where a semaphore fails
-- it has closed its descriptor and destroyed its semaphores, and has unmapped the memory and called unlink
-- on the name. Where it succeeds its descriptor is closed too; `mc_destroy` of the process that made the
-- channel destroys both semaphores, unmaps the memory and calls unlink on the name, and that of another
-- only unmaps the memory, and leaves both semaphores.
pub mc_create-Ended :
    (sizeof_channel elem_size capacity pid pid' name : ℕ) (buffer : ℕ → ℕ) (shm_open : Option ℕ)
    (ftruncate : Bool) (mmap : Option ℕ) (items space : Bool) (s : System)
    → let size = sizeof_channel + elem_size * capacity in
      Ended size pid pid' name (shmem_create size shm_open ftruncate mmap s.calls).0 s (
        mc_create sizeof_channel elem_size capacity pid name buffer shm_open ftruncate mmap items
          space s)
unfolding mc_create mc_destroy shmem_create shmem_internal_map clean_up shmem_destroy
mc_create-Ended z e n pid pid' name buf none t mmap items space s = refl
mc_create-Ended z e n pid pid' name buf (some fd) false mmap items space s = refl
mc_create-Ended z e n pid pid' name buf (some fd) true none items space s = refl
mc_create-Ended z e n pid pid' name buf (some fd) true (some base) false space s = record {
  base = base;
  fd = fd;
  opened = refl;
  closed = refl;
  mapped = refl;
  unmapped = refl;
  unlinked = refl;
  semaphores = omega arith;
}
mc_create-Ended z e n pid pid' name buf (some fd) true (some base) true false s = record {
  base = base;
  fd = fd;
  opened = refl;
  closed = refl;
  mapped = refl;
  unmapped = refl;
  unlinked = refl;
  semaphores = omega arith;
}
mc_create-Ended z e n pid pid' name buf (some fd) true (some base) true true s = record {
  base = base;
  fd = fd;
  opened = ground arith;
  closed = ground arith;
  mapped = ground arith;
  unmapped = ground arith;
  unlinked = ground arith;
  semaphores = ground arith;
}
