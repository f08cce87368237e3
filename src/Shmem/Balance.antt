-- ===== src/Shmem/Balance.antt =====
-- Which descriptors and mappings the operations leave behind.
use so_1920v_li41n.Prelude.{
  ℕ, ◌+◌, ◌≡◌, refl, Bool, true, false, Option, none, some, List, [], ◌∷◌, arith, count,
}
use so_1920v_li41n.Shmem.{Calls, opens, shmem_internal_map, shmem_create, shmem_open, shmem}
use so_1920v_li41n.Shmem.Files.{
  Mapping, done, mapped_size, map_file, map_file_keeping, unmap_file_keeping,
}

-- From `c` to `c'` the descriptors `kept` were given and not closed.
abbrev pub Keeps : List ℕ → Calls → Calls → Type 0
Keeps kept c c' =
    (a : ℕ)
    → count a c'.opened + count a c.closed ≡ count a kept + (count a c.opened + count a c'.closed)

-- A result is the base of the one new mapping, of `size` bytes; without one nothing was mapped.
abbrev pub MapsOnce : (size : ℕ) → Calls → Option ℕ × Calls → Type 0
MapsOnce size c (none, c') = c'.mapped ≡ c.mapped
MapsOnce size c (some base, c') = c'.mapped ≡ (base, size) ∷ c.mapped

internal_map-Keeps :
    (fd size : ℕ) (mmap : Option ℕ) (c : Calls)
    → Keeps [] c (shmem_internal_map fd size mmap (opens fd c)).1
unfolding shmem_internal_map
internal_map-Keeps fd size none c a = omega arith
internal_map-Keeps fd size (some base) c a = omega arith

internal_map-MapsOnce :
    (fd size : ℕ) (mmap : Option ℕ) (c : Calls)
    → MapsOnce size c (shmem_internal_map fd size mmap (opens fd c))
unfolding shmem_internal_map
internal_map-MapsOnce fd size none c = refl
internal_map-MapsOnce fd size (some base) c = refl

-- Whatever the system calls give, `shmem_create` leaves no descriptor open, and its result is the
-- base of the one mapping that it made, of the size asked for, or NULL where it made none.
pub shmem_create-Keeps :
    (size : ℕ) (shm_open : Option ℕ) (ftruncate : Bool) (mmap : Option ℕ) (c : Calls)
    → Keeps [] c (shmem_create size shm_open ftruncate mmap c).1
      × MapsOnce size c (shmem_create size shm_open ftruncate mmap c)
unfolding shmem_create
shmem_create-Keeps size none ftruncate mmap c = (λ a. omega arith, refl)
shmem_create-Keeps size (some fd) false mmap c = (λ a. omega arith, refl)
shmem_create-Keeps size (some fd) true mmap c =
    (internal_map-Keeps fd size mmap c, internal_map-MapsOnce fd size mmap c)

-- `shmem_open` leaves no descriptor open, and maps as many bytes as `fstat` tells, or none.
pub shmem_open-Keeps :
    (shm_open : Option ℕ) (st_size : ℕ) (mmap : Option ℕ) (c : Calls)
    → (Keeps [] c (shmem_open shm_open none mmap c).1
        × ((shmem_open shm_open none mmap c).1.mapped ≡ c.mapped))
      × (Keeps [] c (shmem_open shm_open (some st_size) mmap c).1
          × MapsOnce st_size c (shmem_open shm_open (some st_size) mmap c))
unfolding shmem_open
shmem_open-Keeps none st_size mmap c = ((λ a. omega arith, refl), (λ a. omega arith, refl))
shmem_open-Keeps (some fd) st_size mmap c = (
  (λ a. omega arith, refl),
  (internal_map-Keeps fd st_size mmap c, internal_map-MapsOnce fd st_size mmap c),
)

-- The function of utils/memutils2.c and that of lib/memutils.c make the same calls with the same
-- result.
pub shmem-eq-shmem_create :
    (size : ℕ) (shm_open : Option ℕ) (ftruncate : Bool) (mmap : Option ℕ) (c : Calls)
    → shmem size shm_open ftruncate mmap c ≡ shmem_create size shm_open ftruncate mmap c
unfolding shmem shmem_create shmem_internal_map
shmem-eq-shmem_create size none ftruncate mmap c = refl
shmem-eq-shmem_create size (some fd) false mmap c = refl
shmem-eq-shmem_create size (some fd) true none c = refl
shmem-eq-shmem_create size (some fd) true (some base) c = refl

-- The descriptor that `map_file` leaves open.
abbrev pub leaked : Option ℕ → Option ℕ → List ℕ
leaked none result = []
leaked (some fd) none = fd ∷ []
leaked (some fd) (some base) = []

-- `map_file` of lib/memutils.c leaves the descriptor of the file open exactly where it opened the
-- file and then fails.
pub map_file-leaks :
    (newsize : ℕ) (opened fstat : Option ℕ) (ftruncate : Bool) (mmap : Option ℕ) (c : Calls)
    → let (result, c') = map_file newsize opened fstat ftruncate mmap c in
      Keeps (leaked opened result) c c'
unfolding map_file
map_file-leaks newsize none fstat ftruncate mmap c a = omega arith
map_file-leaks newsize (some fd) none ftruncate mmap c a = omega arith
map_file-leaks newsize (some fd) (some st_size) ftruncate none c a = ground arith
map_file-leaks newsize (some fd) (some st_size) ftruncate (some base) c a = ground arith

-- What a call that opened `fd` has come to, and what `unmap_file` makes of it.
abbrev pub Undone : (fd : ℕ) → Calls → Mapping × Calls → Type 0
Undone fd c (done fmap, c') =
    (fmap.fd ≡ fd)
    × (c'.mapped ≡ (fmap.base, fmap.len) ∷ c.mapped)
    × Keeps (fd ∷ []) c c'
    × ((unmap_file_keeping fmap c').unmapped ≡ (fmap.base, fmap.len) ∷ c.unmapped)
    × Keeps [] c (unmap_file_keeping fmap c')
Undone fd c (_, c') = (c'.mapped ≡ c.mapped) × Keeps (fd ∷ []) c c'

-- Where `map_file` of utils/memutils.c succeeds, it made one mapping and keeps the descriptor that
-- it was given; `unmap_file` unmaps that mapping, all of it, and closes that descriptor. Where it
-- fails behind its `open`, it mapped nothing and leaves the descriptor open.
pub unmap_file-map_file :
    (newsize fd : ℕ) (fstat : Option ℕ) (ftruncate : Bool) (mmap : Option ℕ) (c : Calls)
    → Undone fd c (map_file_keeping newsize (some fd) fstat ftruncate mmap c)
unfolding map_file_keeping unmap_file_keeping
unmap_file-map_file newsize fd none ftruncate mmap c = (refl, λ a. omega arith)
unmap_file-map_file newsize fd (some st_size) ftruncate mmap c =
    mapped (mapped_size newsize st_size ftruncate) mmap refl
  where
    mapped :
        (size mmap : Option ℕ)
        → mapped_size newsize st_size ftruncate ≡ size
        → Undone fd c (map_file_keeping newsize (some fd) (some st_size) ftruncate mmap c)
    mapped none mmap e = rw (e, map_file_keeping) (refl, λ a. omega arith)
    mapped (some size) none e = rw (e, map_file_keeping) (refl, λ a. omega arith)
    mapped (some size) (some base) e =
        rw (e, map_file_keeping) (refl, refl, λ a. omega arith, refl, λ a. omega arith)
