-- ===== src/MemChannel/Lifetime.antt =====
-- mc_create, mc_open and mc_destroy: the shared memory in which a channel lies.
-- `sizeof_channel` is sizeof(mem_channel_t). The product of the two ints is taken not to overflow.
use so_1920v_li41n.Prelude.{
  ℕ, ◌+◌, ◌*◌, ◌≡◌, Bool, Option, none, some, [], ◌∷◌, arith, ◌==◌, if◌then◌else◌,
}
use so_1920v_li41n.Shmem.{Calls, munmap, shmem_create, shmem_open, shmem_destroy}
use so_1920v_li41n.Shmem.Balance.{Keeps, MapsOnce, shmem_create-Keeps}
use so_1920v_li41n.MemChannel.{Bytes, Channel, new_channel}

abbrev pub total_size : (sizeof_channel elem_size capacity : ℕ) → ℕ
total_size sizeof_channel elem_size capacity = elem_size * capacity + sizeof_channel

-- The address of the channel and its contents, or `none` for NULL.
abbrev pub made : (elem_size capacity pid : ℕ) → Bytes → Option ℕ → Option (ℕ × Channel)
made elem_size capacity pid buf none = none
made elem_size capacity pid buf (some rb) = some (rb, new_channel elem_size capacity pid buf)

-- `pid` is the process, and `buf` what the new memory holds behind the fields.
unfoldable pub mc_create :
    (sizeof_channel elem_size capacity pid : ℕ)
    → Bytes
    → (shm_open : Option ℕ) (ftruncate : Bool) (mmap : Option ℕ) → Calls
    → Option (ℕ × Channel) × Calls
mc_create sizeof_channel elem_size capacity pid buf shm_open ftruncate mmap c =
    let size = total_size sizeof_channel elem_size capacity in
    let (rb, c') = shmem_create size shm_open ftruncate mmap c in
    (made elem_size capacity pid buf rb, c')

unfoldable pub mc_open : (shm_open fstat mmap : Option ℕ) → Calls → Option ℕ × Calls
mc_open shm_open fstat mmap c = shmem_open shm_open fstat mmap c

-- The process `pid` destroys the channel `rb`, which lies at `base`.
unfoldable pub mc_destroy : (sizeof_channel pid name base : ℕ) → Channel → Calls → Calls
mc_destroy sizeof_channel pid name base rb c =
    let size = total_size sizeof_channel rb.elem_size rb.capacity in
    if pid == rb.owner then shmem_destroy name base size c else munmap base size c

-- What `mc_create` has come to, and what `mc_destroy`, called by the process `pid'`, makes of it.
abbrev pub Destroyed :
    (sizeof_channel elem_size capacity pid pid' name : ℕ)
    → Calls
    → Option (ℕ × Channel) × Calls
    → Type 0
Destroyed sizeof_channel elem_size capacity pid pid' name c (none, c') =
    (c'.mapped ≡ c.mapped) × Keeps [] c c'
Destroyed sizeof_channel elem_size capacity pid pid' name c (some (base, rb), c') =
    let size = total_size sizeof_channel elem_size capacity in
    let after = mc_destroy sizeof_channel pid' name base rb c' in
    (c'.mapped ≡ (base, size) ∷ c.mapped)
    × Keeps [] c c'
    × (after.unmapped ≡ (base, size) ∷ c'.unmapped)
    × (after.unlinked ≡ (if pid' == pid then name ∷ c'.unlinked else c'.unlinked))

module _ (sizeof_channel elem_size capacity pid pid' name : ℕ) (buf : Bytes) (c : Calls) where
  destroyed :
      (rb : Option ℕ) (c' : Calls)
      → MapsOnce (total_size sizeof_channel elem_size capacity) c (rb, c')
      → Keeps [] c c'
      → Destroyed sizeof_channel elem_size capacity pid pid' name c
          (made elem_size capacity pid buf rb, c')
  unfolding mc_destroy new_channel shmem_destroy
  destroyed none c' mapped keeps = (mapped, keeps)
  destroyed (some base) c' mapped keeps = (mapped, keeps, ground arith, ground arith)

  -- Where `mc_create` fails it has mapped nothing. Where it succeeds it has made one mapping, and
  -- `mc_destroy` unmaps all of it, in every process, and calls unlink on the name in the process that
  -- made the channel and in no other. No descriptor stays open.
  pub mc_destroy-mc_create :
      (shm_open : Option ℕ) (ftruncate : Bool) (mmap : Option ℕ)
      → Destroyed sizeof_channel elem_size capacity pid pid' name c
          (mc_create sizeof_channel elem_size capacity pid buf shm_open ftruncate mmap c)
  unfolding mc_create
  mc_destroy-mc_create shm_open ftruncate mmap =
      let size = total_size sizeof_channel elem_size capacity in
      let (keeps, mapped) = shmem_create-Keeps size shm_open ftruncate mmap c in
      let r = shmem_create size shm_open ftruncate mmap c in destroyed r.0 r.1 mapped keeps
