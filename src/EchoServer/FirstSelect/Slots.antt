-- ===== src/EchoServer/FirstSelect/Slots.antt =====
-- The descriptors in the slots of the first server on select.
use so_1920v_li41n.Prelude.{
  ℕ, zero, suc, ◌+◌, ◌≤◌, ◌<◌, ◌≡◌, refl, Bool-cases, inl, inr, Option, none, some, List, [], ◌∷◌,
  ◌++◌, arith, ◌==◌, update, count, count-append,
}

abbrev pub slot_fds : Option ℕ → List ℕ
slot_fds none = []
slot_fds (some fd) = fd ∷ []

-- The descriptors in the first `n` slots, the last first.
unfoldable pub slots_fds : ℕ → (ℕ → Option ℕ) → List ℕ
slots_fds zero slots = []
slots_fds (suc n) slots = slot_fds (slots n) ++ slots_fds n slots

pub slots_fds-above :
    (n i : ℕ) (slots : ℕ → Option ℕ) (v : Option ℕ)
    → n ≤ i
    → slots_fds n (update slots i v) ≡ slots_fds n slots
unfolding slots_fds
slots_fds-above zero i slots v h = refl
slots_fds-above (suc n) i slots v h = ground (arith, slots_fds-above n i slots v (omega arith))

pub slots_fds-none :
    (n : ℕ) (slots : ℕ → Option ℕ) → ((i : ℕ) → i < n → slots i ≡ none) → slots_fds n slots ≡ []
unfolding slots_fds
slots_fds-none zero slots h = refl
slots_fds-none (suc n) slots h =
    ground (arith, h n (omega arith), slots_fds-none n slots (λ i lt. h i (omega (arith, lt))))

pub count-slots_update :
    (a n i : ℕ) (slots : ℕ → Option ℕ) (v : Option ℕ)
    → i < n
    → count a (slots_fds n (update slots i v)) + count a (slot_fds (slots i))
      ≡ count a (slots_fds n slots) + count a (slot_fds v)
unfolding slots_fds
count-slots_update a zero i slots v h = absurd (omega arith)
count-slots_update a (suc n) i slots v h = elim (Bool-cases (i == n)) [
  | inl top ↦ ground (
    arith,
    slots_fds-above n i slots v (ground arith),
    count-append a (slot_fds v) (slots_fds n slots),
    count-append a (slot_fds (slots n)) (slots_fds n slots),
  )
  | inr below ↦ ground (
    arith,
    count-slots_update a n i slots v (ground arith),
    count-append a (slot_fds (slots n)) (slots_fds n (update slots i v)),
    count-append a (slot_fds (slots n)) (slots_fds n slots),
  )
]
