-- ===== src/MemChannel/Fifo.antt =====
-- mc_put and mc_get as the operations of a queue of bounded length.
use mathlib.Core.Path.{subst}
use so_1920v_li41n.Prelude.{
  sym, ◌∙◌, inl, inr, Bool-cases, ℕ, suc, ◌+◌, ◌-◌, ◌*◌, ◌≤◌, ◌<◌, ◌≡◌, ◌≢◌, refl, Option, none,
  some, List, [], ◌∷◌, ◌++◌, arith, length, length-append, if◌then◌else◌, ◌==◌,
}
use so_1920v_li41n.MemChannel.{Bytes, Channel, memcpy, advance, new_channel, mc_put, mc_get}
use so_1920v_li41n.MemChannel.Slots.{
  SameBytes, Holds, Stored, slot, advance-lt, advance-slot, slot-ne, memcpy-Holds, Stored-memcpy,
  Stored-snoc, memcpy-start, slot-advance,
}

-- The channel holds the elements `xs`, the oldest first.
pub record Contains (rb : Channel) (xs : List Bytes) : Type 0 where
  pub size : rb.size ≡ length xs
  pub fits : length xs ≤ rb.capacity
  pub in_range : rb.iget < rb.capacity
  pub put_at : rb.iput ≡ slot rb.capacity rb.iget (length xs)
  pub stored : Stored rb.capacity rb.elem_size rb.buf rb.iget xs

pub new_channel-Contains :
    (elem_size capacity pid : ℕ) (buf : Bytes)
    → 0 < capacity
    → Contains (new_channel elem_size capacity pid buf) []
unfolding new_channel
new_channel-Contains e c pid buf h = record {
  size = refl;
  fits = omega arith;
  in_range = h;
  put_at = ground arith;
  stored = tt;
}

-- What a read of the elements `xs` comes to.
abbrev pub Received : ℕ → List Bytes → Option (Channel × Bytes) → Type 0
Received e [] result = result ≡ none
Received e (x ∷ xs) result =
    (rb' : Channel) × (out : Bytes) × (result ≡ some (rb', out))
    × SameBytes e out x
    × Contains rb' xs

put-Contains :
    (rb : Channel) (xs : List Bytes) (item : Bytes)
    → Contains rb xs
    → length xs ≢ rb.capacity
    → Contains
        (record rb {
          buf = memcpy rb.buf (rb.iput * rb.elem_size) rb.elem_size item;
          iput = advance rb.capacity rb.iput;
          size = rb.size + 1;
        })
        (xs ++ item ∷ [])
put-Contains rb xs item r room =
    let free : length xs < rb.capacity = omega (arith, r.fits) in
    let n : length (xs ++ item ∷ []) ≡ suc (length xs) =
      omega (arith, length-append xs (item ∷ [])) in
    record {
      size = omega (arith, r.size);
      fits = omega arith;
      in_range = r.in_range;
      put_at = rw (r.put_at, n) (advance-slot rb.capacity rb.iget (length xs) r.in_range free);
      stored =
          Stored-snoc rb.capacity rb.elem_size
            (memcpy rb.buf (rb.iput * rb.elem_size) rb.elem_size item) rb.iget xs item r.in_range
            free
            (Stored-memcpy rb.capacity rb.elem_size rb.buf item rb.iget rb.iput xs r.in_range r.fits
              (λ n small e.
                slot-ne rb.capacity rb.iget n (length xs) r.in_range small free (e ∙ r.put_at))
              r.stored)
            (subst
              (λ j.
                Holds rb.elem_size (memcpy rb.buf (rb.iput * rb.elem_size) rb.elem_size item) j
                  item)
              r.put_at (memcpy-Holds rb.buf item rb.iput rb.elem_size));
    }

-- `mc_put` waits on a full channel; on another it puts the element behind the others.
mc_put-Contains :
    (rb : Channel) (xs : List Bytes) (item : Bytes)
    → Contains rb xs
    → if length xs == rb.capacity
      then mc_put rb item ≡ none
      else (rb' : Channel) × (mc_put rb item ≡ some rb') × Contains rb' (xs ++ item ∷ [])
unfolding mc_put
mc_put-Contains rb xs item r = elim (Bool-cases (length xs == rb.capacity)) [
  | inl full ↦ rw full (ground (arith, r.size))
  | inr room ↦ rw room (
    record rb {
      buf = memcpy rb.buf (rb.iput * rb.elem_size) rb.elem_size item;
      iput = advance rb.capacity rb.iput;
      size = rb.size + 1;
    },
    ground (arith, r.size),
    put-Contains rb xs item r (ground arith),
  )
]

-- `mc_get` waits on an empty channel; on another it removes the oldest element and copies it to the
-- caller's buffer.
mc_get-Contains :
    (rb : Channel) (item_ptr : Bytes) (xs : List Bytes)
    → Contains rb xs
    → Received rb.elem_size xs (mc_get rb item_ptr)
unfolding mc_get
mc_get-Contains rb item_ptr [] r = ground (arith, r.size)
mc_get-Contains rb item_ptr (x ∷ xs) r = (
  record rb { iget = advance rb.capacity rb.iget; size = rb.size - 1 },
  memcpy item_ptr 0 rb.elem_size (λ k. rb.buf (rb.iget * rb.elem_size + k)),
  ground (arith, r.size),
  (λ k small. memcpy-start item_ptr _ rb.elem_size k small ∙ r.stored.0 k small),
  record {
    size = omega (arith, r.size);
    fits = omega (arith, r.fits);
    in_range = advance-lt rb.capacity rb.iget r.in_range;
    put_at =
        r.put_at
        ∙ sym (slot-advance rb.capacity rb.iget (length xs) r.in_range (omega (arith, r.fits)));
    stored = r.stored.1;
  },
)

-- On a channel that holds the elements `xs`: `mc_put` waits if it is full, and puts its element behind
-- them otherwise; `mc_get` waits if it is empty, and otherwise removes the oldest element and copies
-- it to the caller's buffer.
pub channel-Contains :
    (rb : Channel) (xs : List Bytes) (item item_ptr : Bytes)
    → Contains rb xs
    → (if length xs == rb.capacity
        then mc_put rb item ≡ none
        else (rb' : Channel) × (mc_put rb item ≡ some rb') × Contains rb' (xs ++ item ∷ []))
      × Received rb.elem_size xs (mc_get rb item_ptr)
channel-Contains rb xs item item_ptr r =
    (mc_put-Contains rb xs item r, mc_get-Contains rb item_ptr xs r)
