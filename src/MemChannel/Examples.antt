-- ===== src/MemChannel/Examples.antt =====
-- A channel of two slots of four bytes that holds one element.
use so_1920v_li41n.Prelude.{true, refl, ◌-◌, ◌+◌, ◌≡◌, some, [], ◌∷◌, arith}
use so_1920v_li41n.MemChannel.{Bytes, Channel, mc_put, mc_get}
use so_1920v_li41n.Shmem.{Calls}
use so_1920v_li41n.MemChannel.Lifetime.{Destroyed, mc_create, mc_destroy-mc_create}
use so_1920v_li41n.MemChannel.Slots.{SameBytes}
use so_1920v_li41n.MemChannel.Fifo.{Contains, channel-Contains}

abbrev zeros : Bytes
zeros = λ k. 0

abbrev item : Bytes
item = λ k. k + 1

-- The channel that holds the element in its slot 1, with the other slot behind it.
abbrev one : Channel
one = record {
  iput = 0;
  iget = 1;
  capacity = 2;
  elem_size = 4;
  size = 1;
  owner = 99;
  buf = λ k. k - 3;
}

one-Contains : Contains one (item ∷ [])
one-Contains = record {
  size = refl;
  fits = omega arith;
  in_range = omega arith;
  put_at = refl;
  stored = (λ k small. omega arith, tt);
}

channel-Contains_example :
    ((rb' : Channel) × (mc_put one item ≡ some rb') × Contains rb' (item ∷ item ∷ []))
    × ((rb' : Channel) × (out : Bytes) × (mc_get one zeros ≡ some (rb', out))
        × SameBytes 4 out item
        × Contains rb' [])
channel-Contains_example = channel-Contains one (item ∷ []) item zeros one-Contains

abbrev no_calls : Calls
no_calls = record { opened = []; closed = []; mapped = []; unmapped = []; unlinked = [] }

mc_destroy-mc_create_example :
    Destroyed 200 4 2 99 99 7 no_calls
      (mc_create 200 4 2 99 zeros (some 3) true (some 4096) no_calls)
mc_destroy-mc_create_example =
    mc_destroy-mc_create 200 4 2 99 99 7 zeros no_calls (some 3) true (some 4096)
