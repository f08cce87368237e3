-- ===== src/Shmem/Examples.antt =====
-- A file of 100 bytes that cannot be mapped, and one that is.
use so_1920v_li41n.Prelude.{true, none, some, [], ◌∷◌}
use so_1920v_li41n.Shmem.{Calls, shmem_create}
use so_1920v_li41n.Shmem.Files.{map_file, map_file_keeping}
use so_1920v_li41n.Shmem.Balance.{
  Keeps, MapsOnce, Undone, shmem_create-Keeps, map_file-leaks, unmap_file-map_file,
}

abbrev no_calls : Calls
no_calls = record { opened = []; closed = []; mapped = []; unmapped = []; unlinked = [] }

shmem_create-Keeps_example :
    Keeps [] no_calls (shmem_create 64 (some 3) true (some 4096) no_calls).1
    × MapsOnce 64 no_calls (shmem_create 64 (some 3) true (some 4096) no_calls)
shmem_create-Keeps_example = shmem_create-Keeps 64 (some 3) true (some 4096) no_calls

map_file-leaks_example :
    Keeps (3 ∷ []) no_calls (map_file 0 (some 3) (some 100) true none no_calls).1
unfolding map_file
map_file-leaks_example = map_file-leaks 0 (some 3) (some 100) true none no_calls

unmap_file-map_file_example :
    Undone 3 no_calls (map_file_keeping 0 (some 3) (some 100) true (some 4096) no_calls)
unmap_file-map_file_example = unmap_file-map_file 0 3 (some 100) true (some 4096) no_calls
