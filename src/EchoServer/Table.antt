-- ===== src/EchoServer/Table.antt =====
-- The arrays of clients: the descriptors in their first slots, and the ways in which they change.
use so_1920v_li41n.Prelude.{
  ℕ, zero, suc, ◌+◌, ◌-◌, ◌≤◌, ◌<◌, ◌≡◌, refl, Bool-cases, inl, inr, List, [], ◌∷◌, arith, ◌==◌,
  update, count,
}

-- The keys of the first `n` slots, the last first.
unfoldable pub table {ℓ} : {A : Type ℓ} → (A → ℕ) → ℕ → (ℕ → A) → List ℕ
table key zero slots = []
table key (suc n) slots = key (slots n) ∷ table key n slots

module _ {ℓ} {A : Type ℓ} (key : A → ℕ) (a : ℕ) where
  pub count-table_above :
      (n i : ℕ) (slots : ℕ → A) (v : A)
      → n ≤ i
      → count a (table key n (update slots i v)) ≡ count a (table key n slots)
  unfolding table
  count-table_above zero i slots v h = refl
  count-table_above (suc n) i slots v h =
      ground (arith, count-table_above n i slots v (omega arith))

  pub count-table-update :
      (n i : ℕ) (slots : ℕ → A) (v : A)
      → i < n
      → count a (table key n (update slots i v)) + count a (key (slots i) ∷ [])
        ≡ count a (table key n slots) + count a (key v ∷ [])
  unfolding table
  count-table-update zero i slots v h = absurd (omega arith)
  count-table-update (suc n) i slots v h =
      ground (arith, count-table-update n i slots v, count-table_above n i slots v)

  pub count-table_snoc :
      (n : ℕ) (slots : ℕ → A) (v : A)
      → count a (table key (n + 1) (update slots n v))
        ≡ count a (table key n slots) + count a (key v ∷ [])
  unfolding table
  count-table_snoc n slots v = ground (arith, count-table_above n n slots v)

  table-pred :
      (n : ℕ) (slots : ℕ → A)
      → 0 < n
      → count a (table key n slots)
        ≡ count a (table key (n - 1) slots) + count a (key (slots (n - 1)) ∷ [])
  unfolding table
  table-pred zero slots h = absurd (omega arith)
  table-pred (suc n) slots h = ground arith

  -- The last slot is copied over the slot `i`, and the array is one shorter.
  pub count-table_swap :
      (n i : ℕ) (slots : ℕ → A)
      → i < n
      → count a (table key (n - 1) (update slots i (slots (n - 1)))) + count a (key (slots i) ∷ [])
        ≡ count a (table key n slots)
  count-table_swap n i slots h = elim (Bool-cases (i == n - 1)) [
    | inl at_end ↦
        ground (
          arith,
          table-pred n slots (omega arith),
          count-table_above (n - 1) i slots (slots (n - 1)),
        )
    | inr inside ↦ ground (
      arith,
      table-pred n slots (omega arith),
      count-table-update (n - 1) i slots (slots (n - 1)),
    )
  ]

  -- A slot of the table is counted.
  pub count-table_slot :
      (n i : ℕ) (slots : ℕ → A) → i < n → key (slots i) ≡ a → 0 < count a (table key n slots)
  unfolding table
  count-table_slot zero i slots h e = absurd (omega arith)
  count-table_slot (suc n) i slots h e = ground (arith, count-table_slot n i slots)
