-- ===== src/Pipeline/Queues.antt =====
-- The steps of the two semaphores and the list of one queue.
use mathlib.Core.Path.{subst}
use so_1920v_li41n.Prelude.{
  ℕ, ◌+◌, ◌-◌, ◌≡◌, refl, Option, some, List, [], ◌∷◌, arith, ltb, if◌then◌else◌, length-append,
}
use so_1920v_li41n.Pipeline.{Queue, queue_put_wait, queue_put_rest, queue_get_wait, queue_get_rest}
use so_1920v_li41n.Pipeline.Stream.{Counted}

module _ (q : Queue) where
  -- `sem_wait` on the space, and on the items.
  pub put_wait-some :
      {q' : Queue} (k : ℕ)
      → Counted q 0 k
      → queue_put_wait q ≡ some q'
      → (q'.list ≡ q.list) × Counted q' 1 k
  unfolding queue_put_wait
  put_wait-some {q'} k c h =
      let g : record q { has_space = q.has_space - 1 } ≡ q' = ground (arith, h) in
      subst (λ (x : Queue). (x.list ≡ q.list) × Counted x 1 k) g
        (refl, record { items = c.items; space = ground (arith, c.space, h) })

  pub get_wait-some :
      {q' : Queue} (k : ℕ)
      → Counted q k 0
      → queue_get_wait q ≡ some q'
      → (q'.list ≡ q.list) × Counted q' k 1
  unfolding queue_get_wait
  get_wait-some {q'} k c h =
      let g : record q { has_items = q.has_items - 1 } ≡ q' = ground (arith, h) in
      subst (λ (x : Queue). (x.list ≡ q.list) × Counted x k 1) g
        (refl, record { items = ground (arith, c.items, h); space = c.space })

  pub put_rest-Counted :
      (item : Option ℕ) (k : ℕ) → Counted q 1 k → Counted (queue_put_rest item q) 0 k
  unfolding queue_put_rest
  put_rest-Counted item k c = record {
    items = ground (arith, c.items, c.space, length-append q.list (item ∷ []));
    space = omega (arith, c.space, length-append q.list (item ∷ []));
  }

-- The rest of `queue_get` finds an item.
pub get_rest-some :
    (q : Queue) (xs : List (Option ℕ)) (k : ℕ)
    → Counted (record q { list = xs }) k 1
    → (item : Option ℕ) × (q' : Queue) × (queue_get_rest (record q { list = xs }) ≡ some (item, q'))
      × (xs ≡ item ∷ q'.list)
      × Counted q' k 0
unfolding queue_get_rest
get_rest-some q [] k c = absurd (omega (arith, c.items))
get_rest-some q (item ∷ rest) k c =
    let q' = record q {
      list = rest;
      has_space = if ltb q.size (q.has_space + 1) then q.size else q.has_space + 1;
    } in
    (
      item,
      q',
      refl,
      refl,
      record { items = omega (arith, c.items); space = ground (arith, c.space) },
    )
