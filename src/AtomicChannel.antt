-- ===== src/AtomicChannel.antt =====
-- aula-06-03/servers_tests/ipc/memchannel2/memchan.c: the channel without a lock, which claims slots
-- by atomic counters and counts elements and free slots in two POSIX semaphores.
-- A thread's call of `mc_put` or `mc_get` is a sequence of steps: the wait, the atomic addition, the
-- copy and the post. Steps of different threads interleave. An element stands for its bytes, and
-- `buffer` is indexed by slot; the counters are longs, taken not to overflow.
mod Examples
pub mod Invariant
pub mod Lifetime
pub mod Pair
pub mod Stale
use so_1920v_li41n.Prelude.{ℕ, ◌+◌, ◌-◌, ◌%◌, Option, none, some, ◌==◌, if◌then◌else◌, update}

-- `mem_channel_t`, its two semaphores by their values.
pub record Shared : Type 0 where
  pub has_items : ℕ
  pub has_space : ℕ
  pub capacity : ℕ
  pub iget : ℕ
  pub iput : ℕ
  pub buffer : ℕ → ℕ

-- The step that a thread takes next, with its local variables.
pub data Pc : Type 0 where
  idle : Pc
  put_wait : (item : ℕ) → Pc
  put_add : (item : ℕ) → Pc
  put_copy : (item pos : ℕ) → Pc
  put_post : Pc
  get_wait : Pc
  get_add : Pc
  get_copy : (pos : ℕ) → Pc
  get_post : (item : ℕ) → Pc
  got : (item : ℕ) → Pc

-- The fields that `mc_create` sets, over the new memory's elements.
unfoldable pub new_channel : (capacity : ℕ) → (ℕ → ℕ) → Shared
new_channel capacity buffer = record {
  has_items = 0;
  has_space = capacity;
  capacity = capacity;
  iget = 0;
  iput = 0;
  buffer = buffer;
}

-- One step of a thread; `none` if it has no step now, because its semaphore is 0 or it makes no call.
unfoldable pub step : Shared → Pc → Option (Shared × Pc)
step s idle = none
step s (put_wait item) =
    if s.has_space == 0 then none else some (record s { has_space = s.has_space - 1 }, put_add item)
step s (put_add item) = some (record s { iput = s.iput + 1 }, put_copy item (s.iput % s.capacity))
step s (put_copy item pos) = some (record s { buffer = update s.buffer pos item }, put_post)
step s put_post = some (record s { has_items = s.has_items + 1 }, idle)
step s get_wait =
    if s.has_items == 0 then none else some (record s { has_items = s.has_items - 1 }, get_add)
step s get_add = some (record s { iget = s.iget + 1 }, get_copy (s.iget % s.capacity))
step s (get_copy pos) = some (s, get_post (s.buffer pos))
step s (get_post item) = some (record s { has_space = s.has_space + 1 }, got item)
step s (got item) = none
