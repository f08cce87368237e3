-- ===== src/AtomicChannel/Invariant.antt =====
-- One sender and one receiver on a channel, and the elements that lie between them.
use native.Mathlib.Decide.{dec_lt}
use native.Mathlib.Nat.{div-add-mod, add-zero, add_assoc}
use so_1920v_li41n.Prelude.{
  ◌∙◌, ℕ, zero, suc, ◌+◌, ◌*◌, ◌/◌, ◌%◌, ◌≤◌, ◌<◌, ◌≡◌, ◌≢◌, refl, List, [], ◌∷◌, ◌++◌, arith,
  update,
}

-- The `n` elements from the claim number `base` on, around the end of the buffer.
abbrev pub window : (ℕ → ℕ) → (capacity base n : ℕ) → List ℕ
window buffer c base zero = []
window buffer c base (suc n) = buffer (base % c) ∷ window buffer c (base + 1) n

-- Claim numbers less than a capacity apart have different slots.
mono : (c x y : ℕ) → x ≤ y → c * x ≤ c * y
mono c x y h = grind arith

multiple : (c x y r : ℕ) → c * x + r < c * y + r → c * x + r + c ≤ c * y + r
multiple c x y r h = elim (dec_lt x y) [
  | yes below ↦ omega (arith, mono c (x + 1) y (omega arith))
  | no above ↦ absurd (omega (arith, mono c y x (omega arith)))
]

pub slot-ne : (c a b : ℕ) → a < b → b < a + c → a % c ≢ b % c
slot-ne c a b h k e =
    omega (arith, div-add-mod a c, div-add-mod b c, multiple c (a / c) (b / c) (b % c))

window-update :
    (buffer : ℕ → ℕ) (c base n k : ℕ) (item : ℕ)
    → base + n ≤ k
    → k < base + c
    → window (update buffer (k % c) item) c base n ≡ window buffer c base n
window-update buffer c base zero k item h below = refl
window-update buffer c base (suc n) k item h below = ground (
  arith,
  slot-ne c base k (omega arith) below,
  window-update buffer c (base + 1) n k item (omega arith) (omega arith),
)

window-snoc :
    (buffer : ℕ → ℕ) (c base n : ℕ)
    → window buffer c base (suc n) ≡ window buffer c base n ++ buffer ((base + n) % c) ∷ []
window-snoc buffer c base zero = ground (arith, add-zero base)
window-snoc buffer c base (suc n) =
    ground (arith, window-snoc buffer c (base + 1) n, add_assoc base 1 n)

-- A copy into the slot behind the window makes the window longer by its element.
pub window-put :
    (buffer : ℕ → ℕ) (c base n item : ℕ)
    → n < c
    → window (update buffer ((base + n) % c) item) c base (suc n)
      ≡ window buffer c base n ++ item ∷ []
window-put buffer c base n item h =
    window-snoc (update buffer ((base + n) % c) item) c base n
    ∙ ground (arith, window-update buffer c base n (base + n) item (omega arith) (omega arith))
