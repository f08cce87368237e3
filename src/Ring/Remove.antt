-- ===== src/Ring/Remove.antt =====
-- remove_head_list and remove_entry_list of uthreads/include/list.h.
use so_1920v_li41n.Prelude.{
  ◌≡◌, List, [], ◌∷◌, ◌++◌, arith, Distinct, Apart, has-append, Distinct-left, Distinct-right,
  Distinct-Apart, Apart-has, append-nil, is_nil, Distinct-remove,
}
use so_1920v_li41n.Ring.{Addr, Links, remove_head_list, remove_entry_list}
use so_1920v_li41n.Ring.Chain.{
  IsChain, IsRing, last, has-last, IsChain-blink, IsChain-frame, IsChain-append, IsChain-retarget,
  IsChain-split,
}
use so_1920v_li41n.Ring.Insert.{SameOutside}

remove_head-IsChain :
    (m : Links) (h x : Addr) (xs : List Addr)
    → IsChain m h (x ∷ xs) h
    → Distinct (h ∷ x ∷ xs)
    → IsChain (remove_head_list m h).1 h xs h
unfolding remove_head_list
remove_head-IsChain m h x [] c d = ground arith
remove_head-IsChain m h x (y ∷ ys) c d = (
  ground arith,
  ground arith,
  IsChain-frame m _ y ys h c.2.2 (λ a i. ground arith) (λ a i. ground arith) (ground arith),
)

-- The first cell leaves the list, and is the result.
pub remove_head_list-IsRing :
    {m : Links} {h x : Addr} {xs : List Addr}
    → IsRing m h (x ∷ xs)
    → ((remove_head_list m h).0 ≡ x) × IsRing (remove_head_list m h).1 h xs
unfolding remove_head_list
remove_head_list-IsRing {m} {h} {x} {xs} r = (
  r.chain.0,
  record {
    chain = remove_head-IsChain m h x xs r.chain r.distinct;
    distinct = (ground (arith, r.distinct.0), r.distinct.1.1);
  },
)

remove_head-same :
    (m : Links) (h x : Addr) (xs : List Addr)
    → IsChain m h (x ∷ xs) h
    → SameOutside (h ∷ xs) m (remove_head_list m h).1
unfolding remove_head_list
remove_head-same m h x [] c a out = ground arith
remove_head-same m h x (y ∷ ys) c a out = ground arith

pub remove_head_list-same :
    {m : Links} {h x : Addr} {xs : List Addr}
    → IsRing m h (x ∷ xs)
    → SameOutside (h ∷ xs) m (remove_head_list m h).1
remove_head_list-same {m} {h} {x} {xs} r = remove_head-same m h x xs r.chain

-- The links that `remove_entry_list` leaves, behind the entry's two neighbours.
remove_entry-IsChain :
    (m : Links) (h : Addr) (xs : List Addr) (e : Addr) (ys : List Addr)
    → IsChain m h xs e
    → IsChain m e ys h
    → Distinct (h ∷ xs ++ e ∷ ys)
    → IsChain (remove_entry_list m e).1 h (xs ++ ys) h
unfolding remove_entry_list
remove_entry-IsChain m h xs e [] c d n =
    let own : Distinct (h ∷ xs) = Distinct-left (h ∷ xs) (e ∷ []) n in
    let lb = IsChain-blink m h xs e c in
    rw append-nil (
      IsChain-retarget m _ h xs e h c own (ground arith) (ground arith) (λ a i ne. ground arith)
        (λ a i. ground arith))
remove_entry-IsChain m h xs e (y ∷ ys) c d n =
    let own : Distinct (h ∷ xs) = Distinct-left (h ∷ xs) (e ∷ y ∷ ys) n in
    let rest : Distinct (e ∷ y ∷ ys) = Distinct-right (h ∷ xs) (e ∷ y ∷ ys) n in
    let apart : Apart (h ∷ xs) (e ∷ y ∷ ys) = Distinct-Apart (h ∷ xs) (e ∷ y ∷ ys) n in
    let lb = IsChain-blink m h xs e c in
    let away = Apart-has (h ∷ xs) (e ∷ y ∷ ys) apart in
    IsChain-append _ h xs y ys h
      (IsChain-retarget m _ h xs e y c own (ground arith) (ground arith) (λ a i ne. ground arith)
        (λ a i. ground (arith, away a)))
      (IsChain-frame m _ y ys h d.2 (λ a i. ground (arith, away (last h xs), has-last h xs))
        (λ a i. ground arith) (ground (arith, away h)))

-- `remove_entry_list` takes an entry out of a list, and the others stay in it in their order.
pub remove_entry_list-IsRing :
    {m : Links} {h : Addr} (xs : List Addr) (e : Addr) (ys : List Addr)
    → IsRing m h (xs ++ e ∷ ys)
    → IsRing (remove_entry_list m e).1 h (xs ++ ys)
remove_entry_list-IsRing {m} {h} xs e ys r =
    let (c, d) = IsChain-split m h xs e ys h r.chain in
    record {
      chain = remove_entry-IsChain m h xs e ys c d r.distinct;
      distinct = Distinct-remove (h ∷ xs) e ys r.distinct;
    }

remove_entry-result :
    (m : Links) (h : Addr) (xs : List Addr) (e : Addr) (ys : List Addr)
    → IsChain m h xs e
    → IsChain m e ys h
    → Distinct (h ∷ xs ++ e ∷ ys)
    → (remove_entry_list m e).0 ≡ is_nil (xs ++ ys)
unfolding remove_entry_list
remove_entry-result m h [] e [] c d n = ground arith
remove_entry-result m h [] e (y ∷ ys) c d n = ground arith
remove_entry-result m h (x ∷ xs) e [] c d n =
    ground (arith, IsChain-blink m x xs e c.2, has-last x xs, has-append h (x ∷ xs) (e ∷ []))
remove_entry-result m h (x ∷ xs) e (y ∷ ys) c d n =
    let apart : Apart (x ∷ xs) (e ∷ y ∷ ys) = Distinct-Apart (x ∷ xs) (e ∷ y ∷ ys) n.1 in
    ground (
      arith,
      IsChain-blink m x xs e c.2,
      Apart-has (x ∷ xs) (e ∷ y ∷ ys) apart (last x xs),
      has-last x xs,
    )

pub remove_entry_list-result :
    {m : Links} {h : Addr} (xs : List Addr) (e : Addr) (ys : List Addr)
    → IsRing m h (xs ++ e ∷ ys)
    → (remove_entry_list m e).0 ≡ is_nil (xs ++ ys)
remove_entry_list-result {m} {h} xs e ys r =
    let (c, d) = IsChain-split m h xs e ys h r.chain in
    remove_entry-result m h xs e ys c d r.distinct
