-- ===== src/ItemPool.antt =====
-- aula-05-13a/tpool2.c: the thread pool whose work items come from an array, by a list of the free
-- ones. Every definition is a stretch under the pool's lock, or of tp_init. An item is the address of
-- its `link`, its first field; the threads' calls of the items' functions are outside.
mod Examples
pub mod Lists
use so_1920v_li41n.Prelude.{
  ℕ, zero, suc, ◌+◌, ◌*◌, Bool, Option, none, some, ◌==◌, if◌then◌else◌, update,
}
use so_1920v_li41n.Ring.{
  Addr, Links, container_of, init_list_head, is_list_empty, remove_head_list, insert_tail_list,
  insert_head_list,
}

-- `tpool_t`: `queue`, `wi_free_list` and `freepool` are the addresses of those fields.
pub record Pool : Type 0 where
  pub queue : Addr
  pub wi_free_list : Addr
  pub freepool : Addr
  pub links : Links
  pub func : Addr → ℕ
  pub arg : Addr → ℕ

abbrev pub sizeof_work_item : ℕ
sizeof_work_item = 32

-- The item, if one is free; otherwise NULL.
unfoldable pub wi_create : (func arg : ℕ) → Pool → Option Addr × Pool
wi_create func arg p =
    if is_list_empty p.links p.wi_free_list
    then (none, p)
    else let (entry, links) = remove_head_list p.links p.wi_free_list in
      let wi = container_of entry 0 in
      (some wi, record p { links = links; func = update p.func wi func; arg = update p.arg wi arg })

unfoldable pub wi_destroy : Addr → Pool → Pool
wi_destroy wi p = record p { links = insert_head_list p.links p.wi_free_list wi }

-- The loop of `init_wi_pool`, with the rounds that are left and its index.
unfoldable pub init_wi_loop : (left i : ℕ) → Pool → Pool
init_wi_loop zero i p = p
init_wi_loop (suc left) i p = init_wi_loop left (i + 1) (record p {
  links = insert_tail_list p.links p.wi_free_list (p.freepool + i * sizeof_work_item);
})

unfoldable pub init_wi_pool : Pool → Pool
init_wi_pool p = init_wi_loop 1024 0 p

-- `tp_init` up to the creation of the threads.
unfoldable pub tp_init : Pool → Pool
tp_init p =
    let links = init_list_head p.links p.queue in
    init_wi_pool (record p { links = init_list_head links p.wi_free_list })

-- `none` is a store through the null pointer that `wi_create` returned.
unfoldable pub tp_submit : (func arg : ℕ) → Pool → Option Pool
tp_submit func arg p =
    let (wi, p) = wi_create func arg p in
    elim wi [
      | none ↦ none
      | some wi ↦ some (record p { links = insert_tail_list p.links p.queue wi })
    ]

-- What a thread of `pool_func` gets: an item whose function it calls, or the end of its loop, where
-- it unlocks a mutex that it does not hold; `none` while it waits.
pub data Work : Type 0 where
  call : (wi : Addr) → Work
  break : Work

unfoldable pub pool_func_get : Pool → Option (Work × Pool)
pool_func_get p =
    if is_list_empty p.links p.queue
    then none
    else let (wi, links) = remove_head_list p.links p.queue in
      some (if p.func wi == 0 then break else call wi, record p { links = links })
