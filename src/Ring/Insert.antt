-- ===== src/Ring/Insert.antt =====
-- init_list_head, is_list_empty and insert_tail_list of uthreads/include/list.h.
use so_1920v_li41n.Prelude.{
  is_nil, ◌≡◌, true, false, List, [], ◌∷◌, ◌++◌, arith, has, Apart, has-append, Distinct-append,
  Apart-has, Apart-of_has,
}
use so_1920v_li41n.Ring.{Addr, Links, init_list_head, is_list_empty, insert_tail_list}
use so_1920v_li41n.Ring.Chain.{
  IsRing, has-last, IsChain-blink, IsChain-frame, IsChain-append, IsChain-retarget,
}

-- The two memories differ at most at the cells `xs`.
abbrev pub SameOutside : List Addr → Links → Links → Type 0
SameOutside xs m m' =
    (a : Addr) → has a xs ≡ false → (m'.flink a ≡ m.flink a) × (m'.blink a ≡ m.blink a)

-- A list survives any change to cells that are not its own.
pub IsRing-frame :
    {m m' : Links} {h : Addr} {xs : List Addr} (cells : List Addr)
    → IsRing m h xs
    → SameOutside cells m m'
    → Apart (h ∷ xs) cells
    → IsRing m' h xs
IsRing-frame {m} {m'} {h} {xs} cells r same apart = record {
  chain =
      IsChain-frame m m' h xs h r.chain (λ a i. (same a (Apart-has (h ∷ xs) cells apart a i)).0)
        (λ a i. (same a (Apart-has (h ∷ xs) cells apart a (ground arith))).1) (same h apart.0).1;
  distinct = r.distinct;
}

pub init_list_head-IsRing : (m : Links) (h : Addr) → IsRing (init_list_head m h) h []
unfolding init_list_head
init_list_head-IsRing m h = record { chain = ground arith; distinct = ground arith }

-- An empty list is told from one that has cells.
pub is_list_empty-nil : {m : Links} {h : Addr} → IsRing m h [] → is_list_empty m h ≡ true
unfolding is_list_empty
is_list_empty-nil r = ground (arith, r.chain.0)

pub is_list_empty-cons :
    {m : Links} {h x : Addr} {xs : List Addr} → IsRing m h (x ∷ xs) → is_list_empty m h ≡ false
unfolding is_list_empty
is_list_empty-cons r = ground (arith, r.chain.0, r.distinct.0)

pub is_list_empty-is_nil :
    {m : Links} {h : Addr} (xs : List Addr) → IsRing m h xs → is_list_empty m h ≡ is_nil xs
is_list_empty-is_nil [] r = is_list_empty-nil r
is_list_empty-is_nil (x ∷ xs) r = is_list_empty-cons r

pub insert_tail_list-IsRing :
    {m : Links} {h : Addr} {xs : List Addr} (e : Addr)
    → IsRing m h xs
    → has e (h ∷ xs) ≡ false
    → IsRing (insert_tail_list m h e) h (xs ++ e ∷ [])
unfolding insert_tail_list
insert_tail_list-IsRing {m} {h} {xs} e r out =
    let lb = IsChain-blink m h xs h r.chain in
    let hl = has-last h xs in
    record {
      chain =
          IsChain-append _ h xs e [] h
            (IsChain-retarget m _ h xs h e r.chain r.distinct (ground arith) (ground arith)
              (λ a i n. ground arith) (λ a i. ground (arith, r.distinct.0)))
            (ground arith, ground arith);
      distinct = (
        ground (arith, has-append h xs (e ∷ []), r.distinct.0),
        Distinct-append xs (e ∷ []) r.distinct.1 (ground arith)
            (Apart-of_has xs (e ∷ []) λ a i. ground arith),
      );
    }

pub insert_tail_list-same :
    {m : Links} {h : Addr} {xs : List Addr} (e : Addr)
    → IsRing m h xs
    → SameOutside (e ∷ h ∷ xs) m (insert_tail_list m h e)
unfolding insert_tail_list
insert_tail_list-same {m} {h} {xs} e r a out =
    ground (arith, IsChain-blink m h xs h r.chain, has-last h xs)
