-- ===== src/ItemPool/Lists.antt =====
-- The queue and the free list of the pool of items.
use so_1920v_li41n.Prelude.{
  append-nil, append_assoc, ◌≤◌, ◌≢◌, ℕ, zero, suc, ◌+◌, ◌*◌, ◌≡◌, refl, false, Option, none, some,
  List, [], ◌∷◌, ◌++◌, arith, has, ◌==◌, Apart, Apart-has, Apart-of_has, has-append, if◌then◌else◌,
  update,
}
use mathlib.Core.Path.{ap}
use so_1920v_li41n.Ring.{
  Addr, Links, remove_head_list, insert_tail_list, insert_head_list, init_list_head,
}
use so_1920v_li41n.Ring.Chain.{IsRing, container_of-zero}
use so_1920v_li41n.Ring.Insert.{
  SameOutside, IsRing-frame, init_list_head-IsRing, is_list_empty-nil, is_list_empty-cons,
  insert_tail_list-IsRing, insert_tail_list-same,
}
use so_1920v_li41n.Ring.Remove.{remove_head_list-IsRing, remove_head_list-same}
use so_1920v_li41n.Ring.Mirror.{insert_head_list-IsRing}
use so_1920v_li41n.ItemPool.{
  Pool, wi_create, wi_destroy, tp_submit, Work, call, break, pool_func_get, sizeof_work_item,
  init_wi_loop, init_wi_pool, tp_init,
}

-- The queue holds the items `xs` and the free list the items `ys`, and no item is in both.
pub record Holds (p : Pool) (xs ys : List Addr) : Type 0 where
  pub queue : IsRing p.links p.queue xs
  pub free : IsRing p.links p.wi_free_list ys
  pub apart : Apart (p.queue ∷ xs) (p.wi_free_list ∷ ys)

pub insert_head_list-same :
    {m : Links} {h : Addr} {xs : List Addr} (e : Addr)
    → IsRing m h xs
    → SameOutside (e ∷ h ∷ xs) m (insert_head_list m h e)
unfolding insert_head_list
insert_head_list-same {m} {h} {xs = []} e r a out = ground (arith, r.chain.0)
insert_head_list-same {m} {h} {xs = x ∷ xs} e r a out = ground (arith, r.chain.0)

Apart-turned : (xs ys : List Addr) → Apart xs ys → Apart ys xs
Apart-turned xs ys d = Apart-of_has ys xs λ a i. ground (arith, Apart-has xs ys d a)

-- A new item in the queue, taken from the front of the free list.
abbrev pub Submitted : (func arg : ℕ) → Pool → (xs ys : List Addr) → Option Pool → Type 0
Submitted func arg p xs [] r = r ≡ none
Submitted func arg p xs (y ∷ ys) r =
    (p' : Pool) × (r ≡ some p') × Holds p' (xs ++ y ∷ []) ys × (p'.func y ≡ func) × (p'.arg y ≡ arg)

wi_create-cons :
    (func arg : ℕ) (p : Pool) (y : Addr) (ys : List Addr)
    → IsRing p.links p.wi_free_list (y ∷ ys)
    → wi_create func arg p ≡ (
      some y,
      record p {
        links = (remove_head_list p.links p.wi_free_list).1;
        func = update p.func y func;
        arg = update p.arg y arg;
      },
    )
unfolding wi_create
wi_create-cons func arg p y ys free =
    rw (is_list_empty-cons free, (remove_head_list-IsRing free).0, container_of-zero y) refl

-- `tp_submit` moves the first free item to the end of the queue, with its function and argument;
-- when all items are in use it stores through a null pointer.
pub tp_submit-Submitted :
    (func arg : ℕ) (p : Pool) (xs ys : List Addr)
    → Holds p xs ys
    → Submitted func arg p xs ys (tp_submit func arg p)
unfolding tp_submit wi_create
tp_submit-Submitted func arg p xs [] h = rw (tp_submit, wi_create, is_list_empty-nil h.free) refl
tp_submit-Submitted func arg p xs (y ∷ ys) h =
    let (head, free1) = remove_head_list-IsRing h.free in
    let links1 = (remove_head_list p.links p.wi_free_list).1 in
    let away = Apart-has (p.queue ∷ xs) (p.wi_free_list ∷ y ∷ ys) h.apart in
    let apart1 : Apart (p.queue ∷ xs) (p.wi_free_list ∷ ys) =
      Apart-of_has (p.queue ∷ xs) (p.wi_free_list ∷ ys) (λ a i. ground (arith, away a)) in
    let out : has y (p.queue ∷ xs) ≡ false = ground (arith, away y) in
    let queue1 : IsRing links1 p.queue xs =
      IsRing-frame (p.wi_free_list ∷ ys) h.queue (remove_head_list-same h.free) apart1 in
    let fresh : has y (p.wi_free_list ∷ ys) ≡ false = ground (arith, h.free.distinct) in
    (
      record p {
        links = insert_tail_list links1 p.queue y;
        func = update p.func y func;
        arg = update p.arg y arg;
      },
      ap
          (λ (r : Option Addr × Pool). elim r.0 [
            | none ↦ none
            | some wi ↦ some (record r.1 { links = insert_tail_list r.1.links r.1.queue wi })
          ])
          (wi_create-cons func arg p y ys h.free),
      record {
        queue = insert_tail_list-IsRing y queue1 out;
        free =
            IsRing-frame (y ∷ p.queue ∷ xs) free1 (insert_tail_list-same y queue1)
              (Apart-turned (y ∷ p.queue ∷ xs) (p.wi_free_list ∷ ys) (fresh, apart1));
        apart =
            Apart-of_has (p.queue ∷ xs ++ y ∷ []) (p.wi_free_list ∷ ys)
              (λ a i. ground (arith, has-append a xs (y ∷ []), fresh, away a));
      },
      ground arith,
      ground arith,
    )

-- A thread gets the oldest item of the queue.
abbrev pub Got : Pool → (xs ys : List Addr) → Option (Work × Pool) → Type 0
Got p [] ys r = r ≡ none
Got p (x ∷ xs) ys r =
    (p' : Pool) × (r ≡ some (if p.func x == 0 then break else call x, p'))
    × Holds p' xs ys
    × (has x (p'.queue ∷ xs) ≡ false)
    × (has x (p'.wi_free_list ∷ ys) ≡ false)

-- A thread waits on an empty queue; from another it gets the oldest item, which is then in neither
-- list, or ends if its function is null.
pub pool_func_get-Got :
    (p : Pool) (xs ys : List Addr) → Holds p xs ys → Got p xs ys (pool_func_get p)
unfolding pool_func_get
pool_func_get-Got p [] ys h = rw (is_list_empty-nil h.queue) refl
pool_func_get-Got p (x ∷ xs) ys h =
    let (head, queue1) = remove_head_list-IsRing h.queue in
    let apart1 : Apart (p.queue ∷ xs) (p.wi_free_list ∷ ys) = (h.apart.0, h.apart.1.1) in
    (
      record p { links = (remove_head_list p.links p.queue).1 },
      rw (is_list_empty-cons h.queue, head) refl,
      record {
        queue = queue1;
        free =
            IsRing-frame (p.queue ∷ xs) h.free (remove_head_list-same h.queue)
              (Apart-turned (p.queue ∷ xs) (p.wi_free_list ∷ ys) apart1);
        apart = apart1;
      },
      ground (arith, h.queue.distinct),
      h.apart.1.0,
    )

-- `wi_destroy` puts an item that is in neither list in front of the free ones.
pub wi_destroy-Holds :
    (x : Addr) (p : Pool) (xs ys : List Addr)
    → Holds p xs ys
    → has x (p.queue ∷ xs) ≡ false
    → has x (p.wi_free_list ∷ ys) ≡ false
    → Holds (wi_destroy x p) xs (x ∷ ys)
unfolding wi_destroy
wi_destroy-Holds x p xs ys h out away = record {
  queue = IsRing-frame (x ∷ p.wi_free_list ∷ ys) h.queue (insert_head_list-same x h.free) (
      Apart-turned (x ∷ p.wi_free_list ∷ ys) (p.queue ∷ xs)
        (out, Apart-turned (p.queue ∷ xs) (p.wi_free_list ∷ ys) h.apart));
  free = insert_head_list-IsRing x h.free away;
  apart =
      Apart-of_has (p.queue ∷ xs) (p.wi_free_list ∷ x ∷ ys)
        (λ a i. ground (arith, out, Apart-has (p.queue ∷ xs) (p.wi_free_list ∷ ys) h.apart a));
}

-- The addresses of `n` items of the array, from the item `i` on.
abbrev pub items : Addr → (n i : ℕ) → List Addr
items freepool zero i = []
items freepool (suc n) i = (freepool + i * sizeof_work_item) ∷ items freepool n (i + 1)

module _ (p : Pool)
    (out : (i : ℕ)
      → has (p.freepool + i * sizeof_work_item) (p.queue ∷ p.wi_free_list ∷ []) ≡ false) where
  loop-Holds :
      (n i : ℕ) (links : Links) (ys : List Addr)
      → Holds (record p { links = links }) [] ys
      → ((j : ℕ) → i ≤ j → has (p.freepool + j * sizeof_work_item) ys ≡ false)
      → Holds (init_wi_loop n i (record p { links = links })) [] (ys ++ items p.freepool n i)
  unfolding init_wi_loop
  loop-Holds zero i links ys h later = rw append-nil h
  loop-Holds (suc n) i links ys h later =
      let x = p.freepool + i * sizeof_work_item in
      let fresh : has x (p.wi_free_list ∷ ys) ≡ false = ground (arith, out i, later i) in
      let other : has x (p.queue ∷ []) ≡ false = ground (arith, out i) in
      let h' : Holds (record p { links = insert_tail_list links p.wi_free_list x }) []
          (ys ++ x ∷ []) =
        record {
          queue = IsRing-frame (x ∷ p.wi_free_list ∷ ys) h.queue (insert_tail_list-same x h.free) (
              Apart-turned (x ∷ p.wi_free_list ∷ ys) (p.queue ∷ [])
                (other, Apart-turned (p.queue ∷ []) (p.wi_free_list ∷ ys) h.apart));
          free = insert_tail_list-IsRing x h.free fresh;
          apart = Apart-of_has (p.queue ∷ []) (p.wi_free_list ∷ ys ++ x ∷ []) (λ a i. ground (
            arith,
            other,
            has-append a ys (x ∷ []),
            Apart-has (p.queue ∷ []) (p.wi_free_list ∷ ys) h.apart a,
          ));
        } in
      rw⁻¹ (append_assoc ys (x ∷ []) (items p.freepool n (i + 1))) (
        loop-Holds n (i + 1) (insert_tail_list links p.wi_free_list x) (ys ++ x ∷ []) h'
          (λ j later_j.
            ground (arith, has-append (p.freepool + j * sizeof_work_item) ys (x ∷ []), later j)))

-- `tp_init` leaves an empty queue, and the 1024 items of the array in the free list, in their order.
pub tp_init-Holds :
    (p : Pool)
    → p.queue ≢ p.wi_free_list
    → ((i : ℕ) → has (p.freepool + i * sizeof_work_item) (p.queue ∷ p.wi_free_list ∷ []) ≡ false)
    → Holds (tp_init p) [] (items p.freepool 1024 0)
unfolding tp_init init_wi_pool init_list_head
tp_init-Holds p ne out =
    let links1 = init_list_head p.links p.queue in
    let links = init_list_head links1 p.wi_free_list in
    loop-Holds p out 1024 0 links []
      (record {
        queue = record { chain = ground arith; distinct = (refl, tt) };
        free = init_list_head-IsRing links1 p.wi_free_list;
        apart = ground arith;
      })
      (λ j later. refl)
