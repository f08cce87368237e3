-- ===== src/Ring/Mirror.antt =====
-- remove_tail_list and insert_head_list of uthreads/include/list.h: each is its counterpart at the
-- other end of the list, with the two pointers of every cell exchanged.
use mathlib.Core.List.{reverse, reverse-append, reverse-reverse}
use mathlib.Core.Path.{subst}
use so_1920v_li41n.Prelude.{
  ◌≡◌, refl, false, List, [], ◌∷◌, ◌++◌, arith, has, Distinct, ◌∙◌, ap, has-append, Distinct-append,
  Apart-of_has,
}
use so_1920v_li41n.Ring.{
  Addr, Links, remove_head_list, remove_tail_list, insert_head_list, insert_tail_list,
}
use so_1920v_li41n.Ring.Chain.{IsChain, IsRing, IsChain-append}
use so_1920v_li41n.Ring.Insert.{insert_tail_list-IsRing}
use so_1920v_li41n.Ring.Remove.{remove_head_list-IsRing}

abbrev mirror : Links → Links
mirror m = record { flink = m.blink; blink = m.flink }

reverse-cons : (x : Addr) (xs : List Addr) → reverse (x ∷ xs) ≡ reverse xs ++ x ∷ []
reverse-cons x xs = reverse-append (x ∷ []) xs

has-reverse : (a : Addr) (xs : List Addr) → has a (reverse xs) ≡ has a xs
has-reverse a [] = refl
has-reverse a (x ∷ xs) =
    rw (reverse-cons x xs, has-append a (reverse xs) (x ∷ [])) (ground (arith, has-reverse a xs))

Distinct-reverse : (xs : List Addr) → Distinct xs → Distinct (reverse xs)
Distinct-reverse [] d = tt
Distinct-reverse (x ∷ xs) d = rw (reverse-cons x xs) (
    Distinct-append (reverse xs) (x ∷ []) (Distinct-reverse xs d.1) (ground arith)
      (Apart-of_has (reverse xs) (x ∷ []) λ a i. ground (arith, has-reverse a xs)))

IsChain-mirror :
    (m : Links) (p : Addr) (xs : List Addr) (q : Addr)
    → IsChain m p xs q
    → IsChain (mirror m) q (reverse xs) p
IsChain-mirror m p [] q c = (c.1, c.0)
IsChain-mirror m p (x ∷ xs) q c =
    rw (reverse-cons x xs)
      (IsChain-append (mirror m) q (reverse xs) x [] p (IsChain-mirror m x xs q c.2) (c.1, c.0))

IsRing-mirror :
    {m : Links} {h : Addr} {xs : List Addr} → IsRing m h xs → IsRing (mirror m) h (reverse xs)
IsRing-mirror {m} {h} {xs} r = record {
  chain = IsChain-mirror m h xs h r.chain;
  distinct = (ground (arith, r.distinct, has-reverse h xs), Distinct-reverse xs r.distinct.1);
}

reverse-snoc-reverse : (e : Addr) (xs : List Addr) → reverse (reverse xs ++ e ∷ []) ≡ e ∷ xs
reverse-snoc-reverse e xs =
    reverse-append (reverse xs) (e ∷ []) ∙ ap (λ l. e ∷ l) (reverse-reverse xs)

pub insert_head_list-IsRing :
    {m : Links} {h : Addr} {xs : List Addr} (e : Addr)
    → IsRing m h xs
    → has e (h ∷ xs) ≡ false
    → IsRing (insert_head_list m h e) h (e ∷ xs)
unfolding insert_head_list insert_tail_list
insert_head_list-IsRing {m} {h} {xs} e r out =
    let turned = insert_tail_list-IsRing e (IsRing-mirror r) (ground (arith, has-reverse e xs)) in
    subst (λ l. IsRing (insert_head_list m h e) h l) (reverse-snoc-reverse e xs)
      (IsRing-mirror turned)

pub remove_tail_list-IsRing :
    {m : Links} {h x : Addr} {xs : List Addr}
    → IsRing m h (xs ++ x ∷ [])
    → ((remove_tail_list m h).0 ≡ x) × IsRing (remove_tail_list m h).1 h xs
unfolding remove_head_list remove_tail_list
remove_tail_list-IsRing {m} {h} {x} {xs} r =
    let turned : IsRing (mirror m) h (x ∷ reverse xs) = rw reverse-append at (IsRing-mirror r) in
    let (first, rest) = remove_head_list-IsRing turned in
    (
      first,
      subst (λ l. IsRing (remove_tail_list m h).1 h l) (reverse-reverse xs) (IsRing-mirror rest),
    )
