-- ===== src/Shmem.antt =====
-- lib/memutils.c, utils/memutils.c and utils/memutils2.c: regions of shared memory and mapped files.
-- The results of the system calls are arguments of the operations: `none` is the result -1, or
-- MAP_FAILED. A name, an address and a size are numbers. `Calls` records what the operating system
-- was asked for and gave.
pub mod Balance
mod Examples
pub mod Files
use so_1920v_li41n.Prelude.{
  ℕ, Bool, true, false, Option, none, some, List, ◌∷◌, ◌==◌, if◌then◌else◌,
}

pub record Calls : Type 0 where
  pub opened : List ℕ  -- the descriptors given
  pub closed : List ℕ
  pub mapped : List (ℕ × ℕ)  -- the base and the length of each mapping made
  pub unmapped : List (ℕ × ℕ)
  pub unlinked : List ℕ  -- the names that unlink was called with

abbrev pub opens : ℕ → Calls → Calls
opens fd c = record c { opened = fd ∷ c.opened }

abbrev pub close : ℕ → Calls → Calls
close fd c = record c { closed = fd ∷ c.closed }

abbrev pub maps : (base size : ℕ) → Calls → Calls
maps base size c = record c { mapped = (base, size) ∷ c.mapped }

abbrev pub munmap : (base size : ℕ) → Calls → Calls
munmap base size c = record c { unmapped = (base, size) ∷ c.unmapped }

abbrev pub unlink : ℕ → Calls → Calls
unlink name c = record c { unlinked = name ∷ c.unlinked }

unfoldable pub shmem_internal_map : (fd size : ℕ) (mmap : Option ℕ) → Calls → Option ℕ × Calls
shmem_internal_map fd size none c = (none, close fd c)
shmem_internal_map fd size (some base) c = (some base, close fd (maps base size c))

unfoldable pub shmem_create :
    (size : ℕ) (shm_open : Option ℕ) (ftruncate : Bool) (mmap : Option ℕ) → Calls → Option ℕ × Calls
shmem_create size none ftruncate mmap c = (none, c)
shmem_create size (some fd) ftruncate mmap c =
    if ftruncate
    then shmem_internal_map fd size mmap (opens fd c)
    else (none, close fd (opens fd c))

-- `fstat` is the size that it stores in the buffer, if it succeeds.
unfoldable pub shmem_open : (shm_open fstat mmap : Option ℕ) → Calls → Option ℕ × Calls
shmem_open none fstat mmap c = (none, c)
shmem_open (some fd) none mmap c = (none, close fd (opens fd c))
shmem_open (some fd) (some st_size) mmap c = shmem_internal_map fd st_size mmap (opens fd c)

unfoldable pub shmem_anon_create : (size : ℕ) (mmap : Option ℕ) → Calls → Option ℕ × Calls
shmem_anon_create size none c = (none, c)
shmem_anon_create size (some base) c = (some base, maps base size c)

-- `unlink` takes the name of a file: the object that shm_open has made under this name stays.
unfoldable pub shmem_destroy : (name base size : ℕ) → Calls → Calls
shmem_destroy name base size c = unlink name (munmap base size c)

unfoldable pub shmem_anon_destroy : (base size : ℕ) → Calls → Calls
shmem_anon_destroy base size c = munmap base size c

-- utils/memutils2.c has one function for the two steps of `shmem_create`.
unfoldable pub shmem :
    (size : ℕ) (shm_open : Option ℕ) (ftruncate : Bool) (mmap : Option ℕ) → Calls → Option ℕ × Calls
shmem size none ftruncate mmap c = (none, c)
shmem size (some fd) false mmap c = (none, close fd (opens fd c))
shmem size (some fd) true none c = (none, close fd (opens fd c))
shmem size (some fd) true (some base) c = (some base, close fd (maps base size (opens fd c)))

unfoldable pub anon_shmem : (size : ℕ) (mmap : Option ℕ) → Calls → Option ℕ × Calls
anon_shmem size none c = (none, c)
anon_shmem size (some base) c = (some base, maps base size c)
