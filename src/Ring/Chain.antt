-- ===== src/Ring/Chain.antt =====
-- Doubly linked chains of cells, the invariant of the lists of uthreads/include/list.h.
use so_1920v_li41n.Prelude.{◌≡◌, ◌≢◌, true, List, [], ◌∷◌, ◌++◌, arith, has, Distinct}
use so_1920v_li41n.Ring.{Addr, Links, container_of}

-- From the cell `p` the forward pointers lead through `xs` to `q`, and the back pointers return.
abbrev pub IsChain : Links → Addr → List Addr → Addr → Type 0
IsChain m p [] q = (m.flink p ≡ q) × (m.blink q ≡ p)
IsChain m p (x ∷ xs) q = (m.flink p ≡ x) × (m.blink x ≡ p) × IsChain m x xs q

-- The list headed by the sentinel `h` holds the cells `xs`, in order.
pub record IsRing (m : Links) (h : Addr) (xs : List Addr) : Type 0 where
  pub chain : IsChain m h xs h
  pub distinct : Distinct (h ∷ xs)

-- The last cell of a chain.
abbrev pub last : Addr → List Addr → Addr
last p [] = p
last p (x ∷ xs) = last x xs

pub has-last : (p : Addr) (xs : List Addr) → has (last p xs) (p ∷ xs) ≡ true
has-last p [] = ground arith
has-last p (x ∷ xs) = ground (arith, has-last x xs)

pub IsChain-blink :
    (m : Links) (p : Addr) (xs : List Addr) (q : Addr) → IsChain m p xs q → m.blink q ≡ last p xs
IsChain-blink m p [] q c = c.1
IsChain-blink m p (x ∷ xs) q c = IsChain-blink m x xs q c.2

-- A chain depends on the forward pointers of `p ∷ xs` and the back pointers of `xs` and `q`.
pub IsChain-frame :
    (m m' : Links) (p : Addr) (xs : List Addr) (q : Addr)
    → IsChain m p xs q
    → ((a : Addr) → has a (p ∷ xs) ≡ true → m'.flink a ≡ m.flink a)
    → ((a : Addr) → has a xs ≡ true → m'.blink a ≡ m.blink a)
    → m'.blink q ≡ m.blink q
    → IsChain m' p xs q
IsChain-frame m m' p [] q c f b bq = (ground (arith, f p), ground arith)
IsChain-frame m m' p (x ∷ xs) q c f b bq = (
  ground (arith, f p),
  ground (arith, b x),
  IsChain-frame m m' x xs q c.2 (λ a i. f a (ground arith)) (λ a i. b a (ground arith)) bq,
)

pub IsChain-append :
    (m : Links) (p : Addr) (xs : List Addr) (e : Addr) (ys : List Addr) (q : Addr)
    → IsChain m p xs e
    → IsChain m e ys q
    → IsChain m p (xs ++ e ∷ ys) q
IsChain-append m p [] e ys q c d = (c.0, c.1, d)
IsChain-append m p (x ∷ xs) e ys q c d = (c.0, c.1, IsChain-append m x xs e ys q c.2 d)

pub IsChain-split :
    (m : Links) (p : Addr) (xs : List Addr) (e : Addr) (ys : List Addr) (q : Addr)
    → IsChain m p (xs ++ e ∷ ys) q
    → IsChain m p xs e × IsChain m e ys q
IsChain-split m p [] e ys q c = ((c.0, c.1), c.2)
IsChain-split m p (x ∷ xs) e ys q c =
    let r = IsChain-split m x xs e ys q c.2 in ((c.0, c.1, r.0), r.1)

-- The chain to `e` becomes one to `q` when the forward pointer of its last cell is set to `q`.
pub IsChain-retarget :
    (m m' : Links) (p : Addr) (xs : List Addr) (e q : Addr)
    → IsChain m p xs e
    → Distinct (p ∷ xs)
    → m'.flink (last p xs) ≡ q
    → m'.blink q ≡ last p xs
    → ((a : Addr) → has a (p ∷ xs) ≡ true → a ≢ last p xs → m'.flink a ≡ m.flink a)
    → ((a : Addr) → has a xs ≡ true → m'.blink a ≡ m.blink a)
    → IsChain m' p xs q
IsChain-retarget m m' p [] e q c d fl bq f b = (fl, bq)
IsChain-retarget m m' p (x ∷ xs) e q c d fl bq f b = (
  ground (arith, f p, has-last x xs),
  ground (arith, b x),
  IsChain-retarget m m' x xs e q c.2 d.1 fl bq (λ a i n. f a (ground arith) n)
      (λ a i. b a (ground arith)),
)

-- The first cell of a chain to `q`.
abbrev pub first : List Addr → Addr → Addr
first [] q = q
first (x ∷ xs) q = x

pub IsChain-flink :
    (m : Links) (p : Addr) (xs : List Addr) (q : Addr) → IsChain m p xs q → m.flink p ≡ first xs q
IsChain-flink m p [] q c = c.0
IsChain-flink m p (x ∷ xs) q c = c.0

-- A structure whose link is its first field stands where the link does.
pub container_of-zero : (a : Addr) → container_of a 0 ≡ a
unfolding container_of
container_of-zero a = omega arith
