-- ===== src/Prelude/Removal.antt =====
-- Removing a number from a list of numbers.
use so_1920v_li41n.Prelude.Lists.{has, count, length}
use so_1920v_li41n.Prelude.Tests.{◌==◌, if◌then◌else◌, Bool-cases}
use Prim.Native.Nat.{ℕ, ◌+◌, ◌<◌}
use mathlib.Core.Path.{◌≡◌, refl}
use mathlib.Core.Logic.{◌≢◌, inl, inr}
use mathlib.Core.Bool.{true, false}
use mathlib.Core.List.{List, [], ◌∷◌}
use native.Mathlib.Omega.{arith}

-- The list without the first occurrence of a number.
abbrev pub remove : ℕ → List ℕ → List ℕ
remove a [] = []
remove a (x ∷ xs) = if a == x then xs else x ∷ remove a xs

pub count-remove :
    (x a : ℕ) (xs : List ℕ)
    → has a xs ≡ true
    → count x (remove a xs) + (if x == a then 1 else 0) ≡ count x xs
count-remove x a [] h = absurd (ground (arith, h))
count-remove x a (y ∷ ys) h = elim (Bool-cases (a == y)) [
  | inl same ↦ ground (arith, same)
  | inr other ↦
      let rest : has a ys ≡ true = ground (arith, h, other) in
      ground (arith, other, count-remove x a ys rest)
]

pub length-remove : (a : ℕ) (xs : List ℕ) → has a xs ≡ true → length (remove a xs) + 1 ≡ length xs
length-remove a [] h = absurd (ground (arith, h))
length-remove a (y ∷ ys) h = elim (Bool-cases (a == y)) [
  | inl same ↦ ground (arith, same)
  | inr other ↦
      let rest : has a ys ≡ true = ground (arith, h, other) in
      ground (arith, other, length-remove a ys rest)
]

pub has-count : (a : ℕ) (xs : List ℕ) → has a xs ≡ true → 0 < count a xs
has-count a [] h = absurd (ground (arith, h))
has-count a (y ∷ ys) h = elim (Bool-cases (a == y)) [
  | inl same ↦ ground (arith, same)
  | inr other ↦
      let rest : has a ys ≡ true = ground (arith, h, other) in
      ground (arith, other, has-count a ys rest)
]

pub count-has : (a : ℕ) (xs : List ℕ) → 0 < count a xs → has a xs ≡ true
count-has a [] h = absurd (omega (arith, h))
count-has a (y ∷ ys) h = elim (Bool-cases (a == y)) [
  | inl same ↦ ground (arith, same)
  | inr other ↦
      let rest : 0 < count a ys = ground (arith, h, other) in
      ground (arith, other, count-has a ys rest)
]

pub nothing_counted : (xs : List ℕ) → ((x : ℕ) → count x xs ≡ 0) → xs ≡ []
nothing_counted [] h = refl
nothing_counted (y ∷ ys) h = absurd (ground (arith, h y))

pub remove-absent : (a : ℕ) (xs : List ℕ) → has a xs ≡ false → remove a xs ≡ xs
remove-absent a [] h = refl
remove-absent a (y ∷ ys) h =
    let rest : has a ys ≡ false = ground (arith, h) in ground (arith, h, remove-absent a ys rest)

pub length-none : (j : ℕ) (xs : List ℕ) → length xs ≡ 0 → has j xs ≡ false
length-none j [] h = refl
length-none j (x ∷ xs) h = absurd (omega (arith, h))

pub has-remove : (j a : ℕ) (xs : List ℕ) → has j (remove a xs) ≡ true → has j xs ≡ true
has-remove j a [] h = h
has-remove j a (y ∷ ys) h = elim (Bool-cases (a == y)) [
  | inl same ↦ ground (arith, same, h)
  | inr other ↦ elim (Bool-cases (j == y)) [
    | inl here ↦ ground (arith, here)
    | inr there ↦
        let rest : has j (remove a ys) ≡ true = ground (arith, h, other, there) in
        ground (arith, there, has-remove j a ys rest)
  ]
]

pub has-remove_other : (j a : ℕ) (xs : List ℕ) → j ≢ a → has j (remove a xs) ≡ has j xs
has-remove_other j a [] ne = refl
has-remove_other j a (y ∷ ys) ne = elim (Bool-cases (a == y)) [
  | inl same ↦ ground (arith, same, ne)
  | inr other ↦ ground (arith, other, has-remove_other j a ys ne)
]
