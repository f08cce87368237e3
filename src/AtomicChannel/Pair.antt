-- ===== src/AtomicChannel/Pair.antt =====
-- One sender and one receiver: what the receiver gets is what the sender sent, in its order.
use so_1920v_li41n.Prelude.{
  ◌≢◌, ◌⊎◌, inl, inr, Bool-cases, ℕ, zero, suc, ◌+◌, ◌%◌, ◌≤◌, ◌<◌, ◌≡◌, refl, ap, Bool, true,
  false, none, some, List, [], ◌∷◌, ◌++◌, append_assoc, append-nil, length-append, update, arith,
  ◌==◌, length,
}
use so_1920v_li41n.AtomicChannel.{
  Shared, Pc, idle, put_wait, put_add, put_copy, put_post, get_wait, get_add, get_copy, get_post,
  got, new_channel, step,
}
use so_1920v_li41n.AtomicChannel.Invariant.{window, window-put}

-- The channel with its two threads, the elements that `mc_put` was called with, and those that `mc_get`
-- has returned.
pub record Pair : Type 0 where
  pub shared : Shared
  pub sender : Pc
  pub receiver : Pc
  pub sent : List ℕ
  pub received : List ℕ

-- What a call of `mc_get` that is at this step has returned.
abbrev pub returned : Pc → List ℕ
returned (got item) = item ∷ []
returned _ = []

-- The element of a call of `mc_put` that has not copied it.
abbrev pending : Pc → List ℕ
pending (put_wait item) = item ∷ []
pending (put_add item) = item ∷ []
pending (put_copy item pos) = item ∷ []
pending _ = []

-- The element that a call of `mc_get` has copied and not returned.
abbrev held : Pc → List ℕ
held (get_post item) = item ∷ []
held _ = []

-- The receiver is between two calls.
abbrev pub resting : Pc → Bool
resting idle = true
resting (got item) = true
resting _ = false

-- A move of the pair: a new call of either thread, or a step of a call.
pub data Move : Pair → Pair → Type 0 where
  call_put :
      (s : Pair) (item : ℕ)
      → s.sender ≡ idle
      → Move s (record s { sender = put_wait item; sent = s.sent ++ item ∷ [] })
  call_get : (s : Pair) → resting s.receiver ≡ true → Move s (record s { receiver = get_wait })
  send :
      (s : Pair) {m : Shared} {p : Pc}
      → step s.shared s.sender ≡ some (m, p)
      → Move s (record s { shared = m; sender = p })
  receive :
      (s : Pair) {m : Shared} {p : Pc}
      → step s.shared s.receiver ≡ some (m, p)
      → Move s (record s { shared = m; receiver = p; received = s.received ++ returned p })

abbrev pub start : ℕ → (ℕ → ℕ) → Pair
start capacity buffer = record {
  shared = new_channel capacity buffer;
  sender = idle;
  receiver = idle;
  sent = [];
  received = [];
}

pub data Reach (capacity : ℕ) (buffer : ℕ → ℕ) : Pair → Type 0 where
  here : Reach capacity buffer (start capacity buffer)
  next : {s t : Pair} → Reach capacity buffer s → Move s t → Reach capacity buffer t

-- A slot that the sender has taken and not filled.
abbrev claims : Pc → ℕ
claims (put_add item) = 1
claims (put_copy item pos) = 1
claims _ = 0

-- The calls between their addition and their copy.
abbrev adds : Pc → ℕ
adds (put_copy item pos) = 1
adds (get_copy pos) = 1
adds _ = 0

-- The elements in the buffer that the semaphore does not count.
abbrev uncounted : Pc → ℕ
uncounted put_post = 1
uncounted (get_add) = 1
uncounted (get_copy pos) = 1
uncounted _ = 0

-- A slot that the receiver has emptied and not given back.
abbrev emptied : Pc → ℕ
emptied (get_post item) = 1
emptied _ = 0

abbrev IsSender : Pc → Type 0
IsSender idle = Unit
IsSender (put_wait item) = Unit
IsSender (put_add item) = Unit
IsSender (put_copy item pos) = Unit
IsSender put_post = Unit
IsSender _ = ⊥

abbrev IsReceiver : Pc → Type 0
IsReceiver idle = Unit
IsReceiver get_wait = Unit
IsReceiver get_add = Unit
IsReceiver (get_copy pos) = Unit
IsReceiver (get_post item) = Unit
IsReceiver (got item) = Unit
IsReceiver _ = ⊥

-- The slot that a call is about to copy to or from is that of the claim number `k`.
abbrev AtClaim : ℕ → ℕ → Pc → Type 0
AtClaim c k (put_copy item pos) = pos ≡ k % c
AtClaim c k (get_copy pos) = pos ≡ k % c
AtClaim c k _ = Unit

-- `n` elements lie in the buffer, from the claim number `base` on.
record Inv (capacity : ℕ) (s : Shared) (p r : Pc) (sent received : List ℕ) (base n : ℕ)
    : Type 0 where
  same : s.capacity ≡ capacity
  is_sender : IsSender p
  is_receiver : IsReceiver r
  puts : s.iput ≡ base + n + adds p
  gets : s.iget ≡ base + adds r
  items : s.has_items + uncounted p + uncounted r ≡ n
  space : s.has_space + n + claims p + emptied r ≡ capacity
  put_at : AtClaim capacity (base + n) p
  get_at : AtClaim capacity base r
  kept : sent ≡ received ++ (held r ++ (window s.buffer capacity base n ++ pending p))

-- Some elements lie in the buffer.
abbrev Between : ℕ → Shared → Pc → Pc → List ℕ → List ℕ → Type 0
Between c s p r sent received = (base : ℕ) × (n : ℕ) × Inv c s p r sent received base n

module _ (c : ℕ) (s : Shared) (r : Pc) (sent received : List ℕ) (base n : ℕ) where
  send-Inv :
      (p : Pc) {m : Shared} {p' : Pc}
      → Inv c s p r sent received base n
      → step s p ≡ some (m, p')
      → Between c m p' r sent received
  unfolding step
  send-Inv idle i e = absurd (cc)
  send-Inv (put_wait item) i e = (base, n, ground arith)
  send-Inv (put_add item) i e = (base, n, ground arith)
  send-Inv (put_copy item pos) i e = (
    base,
    suc n,
    ground (
      arith,
      window-put s.buffer c base n item,
      append-nil (window (update s.buffer ((base + n) % c) item) c base (suc n)),
    ),
  )
  send-Inv put_post i e = (base, n, ground arith)
  send-Inv get_wait i e = absurd i.is_sender
  send-Inv get_add i e = absurd i.is_sender
  send-Inv (get_copy pos) i e = absurd i.is_sender
  send-Inv (get_post item) i e = absurd i.is_sender
  send-Inv (got item) i e = absurd i.is_sender

base_next : (base n : ℕ) → base + 1 + n ≡ base + suc n
base_next base n = omega arith

-- The receiver's copy takes the first of the elements in the buffer.
receive_copy-Inv :
    (c : ℕ) (s : Shared) (p : Pc) (sent received : List ℕ) (base n pos : ℕ) {m : Shared} {r' : Pc}
    → Inv c s p (get_copy pos) sent received base n
    → step s (get_copy pos) ≡ some (m, r')
    → Between c m p r' sent (received ++ returned r')
unfolding step
receive_copy-Inv c s p sent received base zero pos i e = absurd (omega (arith, i.items))
receive_copy-Inv c s p sent received base (suc n) pos i e =
    (base + 1, n, ground (arith, append-nil received, base_next base n))

module _ (c : ℕ) (s : Shared) (p : Pc) (sent received : List ℕ) (base n : ℕ) where
  receive-Inv :
      (r : Pc) {m : Shared} {r' : Pc}
      → Inv c s p r sent received base n
      → step s r ≡ some (m, r')
      → Between c m p r' sent (received ++ returned r')
  unfolding step
  receive-Inv idle i e = absurd (cc)
  receive-Inv (put_wait item) i e = absurd i.is_receiver
  receive-Inv (put_add item) i e = absurd i.is_receiver
  receive-Inv (put_copy item pos) i e = absurd i.is_receiver
  receive-Inv put_post i e = absurd i.is_receiver
  receive-Inv get_wait i e = (base, n, ground (arith, append-nil received))
  receive-Inv get_add i e = (base, n, ground (arith, append-nil received))
  receive-Inv (get_copy pos) i e = receive_copy-Inv c s p sent received base n pos i e
  receive-Inv (get_post item) i e = (
    base,
    n,
    ground (arith, append_assoc received (item ∷ []) (window s.buffer c base n ++ pending p)),
  )
  receive-Inv (got item) i e = absurd (cc)

PairInv : ℕ → Pair → Type 0
PairInv c s = Between c s.shared s.sender s.receiver s.sent s.received

call_get-Inv :
    (c : ℕ) (s : Shared) (p r : Pc) (sent received : List ℕ) (base n : ℕ)
    → Inv c s p r sent received base n
    → resting r ≡ true
    → Inv c s p get_wait sent received base n
call_get-Inv c s p idle sent received base n i e = ground arith
call_get-Inv c s p (got item) sent received base n i e = ground arith
call_get-Inv c s p r sent received base n i e = absurd (cc)

call_put-Inv :
    (c : ℕ) (s : Shared) (p r : Pc) (sent received : List ℕ) (base n item : ℕ)
    → Inv c s p r sent received base n
    → p ≡ idle
    → Inv c s (put_wait item) r (sent ++ item ∷ []) received base n
call_put-Inv c s p r sent received base n item i e =
    let lying = window s.buffer c base n in
    ground (
      arith,
      append_assoc received (held r ++ lying) (item ∷ []),
      append_assoc (held r) lying (item ∷ []),
      append-nil lying,
    )

Move-Inv : {s t : Pair} (c : ℕ) → Move s t → PairInv c s → PairInv c t
unfolding PairInv
Move-Inv c (call_put s item e) (base, n, i) =
    (base, n, call_put-Inv c s.shared s.sender s.receiver s.sent s.received base n item i e)
Move-Inv c (call_get s e) (base, n, i) =
    (base, n, call_get-Inv c s.shared s.sender s.receiver s.sent s.received base n i e)
Move-Inv c (send s e) (base, n, i) =
    send-Inv c s.shared s.receiver s.sent s.received base n s.sender i e
Move-Inv c (receive s e) (base, n, i) =
    receive-Inv c s.shared s.sender s.sent s.received base n s.receiver i e

Reach-Inv : (c : ℕ) (buffer : ℕ → ℕ) {s : Pair} → Reach c buffer s → PairInv c s
unfolding PairInv new_channel
Reach-Inv c buffer here = (0, 0, ground arith)
Reach-Inv c buffer (next r m) = Move-Inv c m (Reach-Inv c buffer r)

length-window : (buffer : ℕ → ℕ) (c base n : ℕ) → length (window buffer c base n) ≡ n
length-window buffer c base zero = refl
length-window buffer c base (suc n) = ap suc (length-window buffer c (base + 1) n)

length-held : (r : Pc) → length (held r) ≡ emptied r
length-held idle = refl
length-held (put_wait item) = refl
length-held (put_add item) = refl
length-held (put_copy item pos) = refl
length-held put_post = refl
length-held get_wait = refl
length-held get_add = refl
length-held (get_copy pos) = refl
length-held (get_post item) = refl
length-held (got item) = refl

length-pending : (p : Pc) → length (pending p) ≤ claims p + 1
length-pending idle = omega arith
length-pending (put_wait item) = omega arith
length-pending (put_add item) = omega arith
length-pending (put_copy item pos) = omega arith
length-pending put_post = omega arith
length-pending get_wait = omega arith
length-pending get_add = omega arith
length-pending (get_copy pos) = omega arith
length-pending (get_post item) = omega arith
length-pending (got item) = omega arith

-- In every reachable state of one sender and one receiver, what the calls of mc_get have returned is
-- what mc_put was called with, in the same order and each element once, but for the last elements, which
-- are at most `c + 1`: the slots, and the element of a call of mc_put that waits for space.
pub received-IsPrefix :
    {s : Pair} (c : ℕ) (buffer : ℕ → ℕ)
    → Reach c buffer s
    → (rest : List ℕ) × (s.sent ≡ s.received ++ rest) × (length rest ≤ c + 1)
unfolding PairInv
received-IsPrefix {s} c buffer r =
    let (base, n, i) = Reach-Inv c buffer r in
    let lying = window s.shared.buffer c base n in
    (
      held s.receiver ++ (lying ++ pending s.sender),
      i.kept,
      omega (
        arith,
        length-append (held s.receiver) (lying ++ pending s.sender),
        length-append lying (pending s.sender),
        length-held s.receiver,
        length-pending s.sender,
        length-window s.shared.buffer c base n,
        i.space,
      ),
    )

-- The two never wait for each other: on a channel with a slot, if the sender is to wait for space and
-- the receiver for an element, one of them can go on.
pub no_deadlock :
    {s : Pair} (c : ℕ) (buffer : ℕ → ℕ) (item : ℕ)
    → Reach c buffer s
    → 0 < c
    → s.sender ≡ put_wait item
    → s.receiver ≡ get_wait
    → (step s.shared s.sender ≢ none) ⊎ (step s.shared s.receiver ≢ none)
unfolding PairInv step
no_deadlock {s} c buffer item r pos e f =
    let (base, n, i) = Reach-Inv c buffer r in
    elim (Bool-cases (s.shared.has_items == 0)) [
      | inl empty ↦ inl (ground (arith, i.items, i.space, e, f))
      | inr some_left ↦ inr (ground (arith, f))
    ]
