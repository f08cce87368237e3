-- ===== src/Prelude/Lists.antt =====
-- Lists measured and indexed by native numbers, Boolean membership of numbers, maps by functions.
use Prim.Native.Nat.{ℕ, zero, suc, ◌+◌}
use mathlib.Core.Path.{◌≡◌, refl, ap}
use mathlib.Core.Bool.{Bool, true, false, ◌||◌}
use mathlib.Core.List.{List, [], ◌∷◌, ◌++◌}
use native.Mathlib.Omega.{arith}
use so_1920v_li41n.Prelude.Tests.{◌==◌, if◌then◌else◌}

-- `f` with the value at one number replaced: the effect of a store.
abbrev pub update {ℓ} : {A : Type ℓ} → (ℕ → A) → ℕ → A → ℕ → A
update f p v q = if p == q then v else f q

abbrev pub has : ℕ → List ℕ → Bool
has a [] = false
has a (x ∷ xs) = (a == x) || has a xs

-- No number occurs twice.
abbrev pub Distinct : List ℕ → Type 0
Distinct [] = Unit
Distinct (x ∷ xs) = (has x xs ≡ false) × Distinct xs

-- The two lists share no number.
abbrev pub Apart : List ℕ → List ℕ → Type 0
Apart [] ys = Unit
Apart (x ∷ xs) ys = (has x ys ≡ false) × Apart xs ys

pub has-append : (a : ℕ) (xs ys : List ℕ) → has a (xs ++ ys) ≡ (has a xs || has a ys)
has-append a [] ys = refl
has-append a (x ∷ xs) ys = ground (arith, has-append a xs ys)

pub Apart-has : (xs ys : List ℕ) → Apart xs ys → (a : ℕ) → has a xs ≡ true → has a ys ≡ false
Apart-has [] ys h a m = ground arith
Apart-has (x ∷ xs) ys h a m = ground (arith, Apart-has xs ys h.1 a)

pub Apart-of_has : (xs ys : List ℕ) → ((a : ℕ) → has a xs ≡ true → has a ys ≡ false) → Apart xs ys
Apart-of_has [] ys h = tt
Apart-of_has (x ∷ xs) ys h = (h x (ground arith), Apart-of_has xs ys λ a m. h a (ground arith))

pub Distinct-append :
    (xs ys : List ℕ) → Distinct xs → Distinct ys → Apart xs ys → Distinct (xs ++ ys)
Distinct-append [] ys dx dy ap = dy
Distinct-append (x ∷ xs) ys dx dy ap =
    (ground (arith, has-append x xs ys), Distinct-append xs ys dx.1 dy ap.1)

pub Distinct-left : (xs ys : List ℕ) → Distinct (xs ++ ys) → Distinct xs
Distinct-left [] ys d = tt
Distinct-left (x ∷ xs) ys d = (ground (arith, has-append x xs ys), Distinct-left xs ys d.1)

pub Distinct-right : (xs ys : List ℕ) → Distinct (xs ++ ys) → Distinct ys
Distinct-right [] ys d = d
Distinct-right (x ∷ xs) ys d = Distinct-right xs ys d.1

pub Distinct-Apart : (xs ys : List ℕ) → Distinct (xs ++ ys) → Apart xs ys
Distinct-Apart [] ys d = tt
Distinct-Apart (x ∷ xs) ys d = (ground (arith, has-append x xs ys), Distinct-Apart xs ys d.1)

module _ {ℓ} {A : Type ℓ} where
  abbrev pub length : List A → ℕ
  length [] = 0
  length (x ∷ xs) = suc (length xs)

  abbrev pub get_or : List A → ℕ → A → A
  get_or [] i d = d
  get_or (x ∷ xs) zero d = x
  get_or (x ∷ xs) (suc i) d = get_or xs i d

  abbrev pub take : ℕ → List A → List A
  take zero xs = []
  take (suc n) [] = []
  take (suc n) (x ∷ xs) = x ∷ take n xs

  abbrev pub drop : ℕ → List A → List A
  drop zero xs = xs
  drop (suc n) [] = []
  drop (suc n) (x ∷ xs) = drop n xs

  abbrev pub replicate : ℕ → A → List A
  replicate zero a = []
  replicate (suc n) a = a ∷ replicate n a

  pub length-append : (xs ys : List A) → length (xs ++ ys) ≡ length xs + length ys
  length-append [] ys = omega arith
  length-append (x ∷ xs) ys = omega (arith, length-append xs ys)

  pub take-append-drop : (n : ℕ) (xs : List A) → take n xs ++ drop n xs ≡ xs
  take-append-drop zero xs = refl
  take-append-drop (suc n) [] = refl
  take-append-drop (suc n) (x ∷ xs) = rw (take-append-drop n xs)

abbrev pub is_nil {ℓ} : {A : Type ℓ} → List A → Bool
is_nil [] = true
is_nil (x ∷ xs) = false

-- One element left out of the middle.
pub Distinct-remove :
    (xs : List ℕ) (e : ℕ) (ys : List ℕ) → Distinct (xs ++ e ∷ ys) → Distinct (xs ++ ys)
Distinct-remove [] e ys d = d.1
Distinct-remove (x ∷ xs) e ys d =
    (ground (arith, has-append x xs ys, has-append x xs (e ∷ ys)), Distinct-remove xs e ys d.1)

abbrev pub count : ℕ → List ℕ → ℕ
count a [] = 0
count a (x ∷ xs) = (if a == x then 1 else 0) + count a xs

pub count-append :
    (item : ℕ) (front back : List ℕ)
    → count item (front ++ back) ≡ count item front + count item back
count-append item [] back = ground arith
count-append item (x ∷ front) back = ground (arith, count-append item front back)

pub has_of_count : (a : ℕ) (xs : List ℕ) → count a xs ≡ 0 → has a xs ≡ false
has_of_count a [] h = refl
has_of_count a (x ∷ xs) h = ground (arith, has_of_count a xs)

pub count_of_has : (a : ℕ) (xs : List ℕ) → has a xs ≡ false → count a xs ≡ 0
count_of_has a [] h = refl
count_of_has a (x ∷ xs) h = ground (arith, count_of_has a xs)
