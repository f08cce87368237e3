-- ===== src/MemChannel/Slots.antt =====
-- The slots of a channel's buffer: element `i` is the `elem_size` bytes from `i * elem_size`.
use mathlib.Core.Path.{subst}
use so_1920v_li41n.Prelude.{
  ap, ℕ, suc, ◌+◌, ◌-◌, ◌*◌, ◌≤◌, ◌<◌, ◌≡◌, ◌≢◌, List, [], ◌∷◌, ◌++◌, arith, length, if◌then◌else◌,
  ltb,
}
use so_1920v_li41n.MemChannel.{Bytes, memcpy, advance}

-- The first `n` bytes are the same.
abbrev pub SameBytes : ℕ → Bytes → Bytes → Type 0
SameBytes n x y = (k : ℕ) → k < n → x k ≡ y k

-- The slot `i` holds the element `x`.
abbrev pub Holds : (elem_size : ℕ) → Bytes → ℕ → Bytes → Type 0
Holds e buf i x = (k : ℕ) → k < e → buf (i * e + k) ≡ x k

-- From the slot `i` on, the slots hold the elements `xs`, around the end of the buffer.
abbrev pub Stored : (capacity elem_size : ℕ) → Bytes → ℕ → List Bytes → Type 0
Stored c e buf i [] = Unit
Stored c e buf i (x ∷ xs) = Holds e buf i x × Stored c e buf (advance c i) xs

-- The slot that `n` steps from the slot `i` lead to.
abbrev pub slot : (capacity i n : ℕ) → ℕ
slot c i n = if ltb (i + n) c then i + n else i + n - c

pub slot-advance : (c i n : ℕ) → i < c → n < c → slot c (advance c i) n ≡ slot c i (suc n)
unfolding advance
slot-advance c i n h k = ground arith

pub advance-lt : (c i : ℕ) → i < c → advance c i < c
unfolding advance
advance-lt c i h = ground arith

pub advance-slot : (c i n : ℕ) → i < c → n < c → advance c (slot c i n) ≡ slot c i (suc n)
unfolding advance
advance-slot c i n h k = ground arith

-- Slots do not overlap.
gap : (i j e : ℕ) → i < j → i * e + e ≤ j * e
gap i j e h = grind arith

pub memcpy-outside :
    (to from : Bytes) (i j e : ℕ) (x : Bytes)
    → i ≢ j
    → Holds e to i x
    → Holds e (memcpy to (j * e) e from) i x
unfolding memcpy
memcpy-outside to from i j e x ne h k small = ground (arith, gap i j e, gap j i e, h k small)

pub memcpy-start : (to from : Bytes) (n k : ℕ) → k < n → memcpy to 0 n from k ≡ from k
unfolding memcpy
memcpy-start to from n k small = ground arith

pub memcpy-Holds : (to from : Bytes) (i e : ℕ) → Holds e (memcpy to (i * e) e from) i from
unfolding memcpy
memcpy-Holds to from i e k small =
    let at : i * e + k - i * e ≡ k = omega arith in ground (arith, ap from at)

-- The elements stay where a write to another slot leaves them.
pub Stored-memcpy :
    (c e : ℕ) (to from : Bytes) (i j : ℕ) (xs : List Bytes)
    → i < c
    → length xs ≤ c
    → ((n : ℕ) → n < length xs → slot c i n ≢ j)
    → Stored c e to i xs
    → Stored c e (memcpy to (j * e) e from) i xs
Stored-memcpy c e to from i j [] h fits apart st = tt
Stored-memcpy c e to from i j (x ∷ xs) h fits apart st = (
  memcpy-outside to from i j e x (ground (arith, apart 0 (omega arith))) st.0,
  Stored-memcpy c e to from (advance c i) j xs (advance-lt c i h) (omega arith)
      (λ n small. ground (arith, slot-advance c i n h (omega arith), apart (suc n) (omega arith)))
      st.1,
)

pub Stored-snoc :
    (c e : ℕ) (buf : Bytes) (i : ℕ) (xs : List Bytes) (y : Bytes)
    → i < c
    → length xs < c
    → Stored c e buf i xs
    → Holds e buf (slot c i (length xs)) y
    → Stored c e buf i (xs ++ y ∷ [])
Stored-snoc c e buf i [] y h fits st held =
    let at : slot c i 0 ≡ i = ground arith in (subst (λ j. Holds e buf j y) at held, tt)
Stored-snoc c e buf i (x ∷ xs) y h fits st held = (
  st.0,
  Stored-snoc c e buf (advance c i) xs y (advance-lt c i h) (omega arith) st.1
      (rw (slot-advance c i (length xs) h (omega arith)) held),
)

-- Around the end, no two of fewer than `c` steps lead to one slot.
pub slot-ne : (c i n m : ℕ) → i < c → n < m → m < c → slot c i n ≢ slot c i m
slot-ne c i n m h k l = ground arith
