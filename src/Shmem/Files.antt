-- ===== src/Shmem/Files.antt =====
-- The mapped files of lib/memutils.c and, with their descriptors kept open, of utils/memutils.c.
use so_1920v_li41n.Prelude.{ℕ, Bool, Option, none, some, ◌==◌, if◌then◌else◌}
use so_1920v_li41n.Shmem.{Calls, opens, close, maps, munmap}

-- `newsize`, or the size of the file where that is 0; `none` if `ftruncate` fails.
abbrev pub mapped_size : (newsize st_size : ℕ) → Bool → Option ℕ
mapped_size newsize st_size ftruncate =
    if newsize == 0 then some st_size else if ftruncate then some newsize else none

-- lib/memutils.c
unfoldable pub map_file :
    (newsize : ℕ) (opened fstat : Option ℕ) (ftruncate : Bool) (mmap : Option ℕ)
    → Calls
    → Option ℕ × Calls
map_file newsize none fstat ftruncate mmap c = (none, c)
map_file newsize (some fd) none ftruncate mmap c = (none, opens fd c)
map_file newsize (some fd) (some st_size) ftruncate mmap c =
    elim (mapped_size newsize st_size ftruncate) [
      | none ↦ (none, opens fd c)
      | some size ↦ elim mmap [
        | none ↦ (none, opens fd c)
        | some base ↦ (some base, close fd (maps base size (opens fd c)))
      ]
    ]

unfoldable pub unmap_file : (base size : ℕ) → Calls → Calls
unmap_file base size c = munmap base size c

-- `file_map` of utils/memutils.h.
pub record FileMap : Type 0 where
  pub fd : ℕ
  pub base : ℕ
  pub len : ℕ

-- What `map_file` of utils/memutils.c returns: 0 and the map, or one of its four error codes.
pub data Mapping : Type 0 where
  done : FileMap → Mapping
  not_opened : Mapping
  no_size : Mapping
  not_truncated : Mapping
  not_mapped : Mapping

unfoldable pub map_file_keeping :
    (newsize : ℕ) (opened fstat : Option ℕ) (ftruncate : Bool) (mmap : Option ℕ)
    → Calls
    → Mapping × Calls
map_file_keeping newsize none fstat ftruncate mmap c = (not_opened, c)
map_file_keeping newsize (some fd) none ftruncate mmap c = (no_size, opens fd c)
map_file_keeping newsize (some fd) (some st_size) ftruncate mmap c =
    elim (mapped_size newsize st_size ftruncate) [
      | none ↦ (not_truncated, opens fd c)
      | some size ↦ elim mmap [
        | none ↦ (not_mapped, opens fd c)
        | some base ↦
            (done (record { fd = fd; base = base; len = size }), maps base size (opens fd c))
      ]
    ]

unfoldable pub unmap_file_keeping : FileMap → Calls → Calls
unmap_file_keeping fmap c = close fmap.fd (munmap fmap.base fmap.len c)
