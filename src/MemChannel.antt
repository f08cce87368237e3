-- ===== src/MemChannel.antt =====
-- aula-06-03/servers_tests/ipc/memchannel/memchan.c: a ring buffer of elements in shared memory.
-- Every operation holds the channel's lock from its start to its end, but for the time in which it
-- waits on a condition, so operations are atomic; `none` means that the caller waits.
mod Examples
pub mod Fifo
pub mod Lifetime
pub mod Slots
use so_1920v_li41n.Prelude.{
  ℕ, ◌+◌, ◌-◌, ◌*◌, Bool, ◌&&◌, Option, none, some, ◌==◌, ltb, leb, if◌then◌else◌,
}

-- The bytes behind a pointer.
abbrev pub Bytes : Type 0
Bytes = ℕ → ℕ

-- `mem_channel_t`, less its lock and its two conditions.
pub record Channel : Type 0 where
  pub iput : ℕ
  pub iget : ℕ
  pub capacity : ℕ
  pub elem_size : ℕ
  pub size : ℕ
  pub owner : ℕ
  pub buf : Bytes

-- `memcpy(to + at, from, n)`
unfoldable pub memcpy : Bytes → (at n : ℕ) → Bytes → Bytes
memcpy to at n from k = if leb at k && ltb k (at + n) then from (k - at) else to k

-- The fields that `mc_create` sets in the new shared memory, whose bytes are `buf`, in the process
-- `pid`.
unfoldable pub new_channel : (elem_size capacity pid : ℕ) → Bytes → Channel
new_channel elem_size capacity pid buf = record {
  iput = 0;
  iget = 0;
  capacity = capacity;
  elem_size = elem_size;
  size = 0;
  owner = pid;
  buf = buf;
}

-- `if (++i == capacity) i = 0;`
unfoldable pub advance : ℕ → ℕ → ℕ
advance capacity i = if i + 1 == capacity then 0 else i + 1

unfoldable pub mc_put : Channel → Bytes → Option Channel
mc_put rb item =
    if rb.size == rb.capacity
    then none
    else some (record rb {
      buf = memcpy rb.buf (rb.iput * rb.elem_size) rb.elem_size item;
      iput = advance rb.capacity rb.iput;
      size = rb.size + 1;
    })

-- The second part of the result is what the caller's buffer, `item_ptr`, holds then.
unfoldable pub mc_get : Channel → Bytes → Option (Channel × Bytes)
mc_get rb item_ptr =
    if rb.size == 0
    then none
    else some (
      record rb { iget = advance rb.capacity rb.iget; size = rb.size - 1 },
      memcpy item_ptr 0 rb.elem_size (λ k. rb.buf (rb.iget * rb.elem_size + k)),
    )
