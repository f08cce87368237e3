-- ===== src/ThreadPool/Count.antt =====
-- Sums over the threads of a pool, and counts of the items in its queue.
use so_1920v_li41n.Prelude.{
  ℕ, zero, suc, ◌+◌, ◌≤◌, ◌<◌, ◌≡◌, refl, true, Option, none, some, List, [], ◌∷◌, ◌++◌, arith,
  ◌==◌, if◌then◌else◌, update,
}
use so_1920v_li41n.ThreadPool.{Worker, waiting, executing, exited, all_exited}

-- The sum of the weights of the first `n` threads.
unfoldable pub total : {A : Type 0} → (A → ℕ) → ℕ → (ℕ → A) → ℕ
total weight zero f = 0
total weight (suc n) f = weight (f n) + total weight n f

total-update_above :
    {A : Type 0} (weight : A → ℕ) (n : ℕ) (f : ℕ → A) (i : ℕ) (v : A)
    → n ≤ i
    → total weight n (update f i v) ≡ total weight n f
unfolding total
total-update_above weight zero f i v h = refl
total-update_above weight (suc n) f i v h =
    ground (arith, total-update_above weight n f i v (omega arith))

pub total-update :
    {A : Type 0} (weight : A → ℕ) (n : ℕ) (f : ℕ → A) (i : ℕ) (v : A)
    → i < n
    → total weight n (update f i v) + weight (f i) ≡ total weight n f + weight v
unfolding total
total-update weight zero f i v h = absurd (omega arith)
total-update weight (suc n) f i v h =
    ground (arith, total-update weight n f i v, total-update_above weight n f i v)

abbrev pub exits : Worker → ℕ
exits exited = 1
exits _ = 0

-- 1 for a thread that executes the item `a`.
abbrev pub executes : ℕ → Worker → ℕ
executes a (executing item) = if a == item then 1 else 0
executes a _ = 0

pub total-all_exited : (n : ℕ) (f : ℕ → Worker) → all_exited n f ≡ true → total exits n f ≡ n
unfolding total
total-all_exited zero f h = refl
total-all_exited (suc n) f h = ground (arith, total-all_exited n f)

-- Threads that have exited execute nothing.
pub total-executes : (a n : ℕ) (f : ℕ → Worker) → total (executes a) n f + total exits n f ≤ n
unfolding total
total-executes a zero f = omega arith
total-executes a (suc n) f = ground (arith, total-executes a n f)

pub total-start :
    (weight : Worker → ℕ) (n : ℕ) → weight waiting ≡ 0 → total weight n (λ i. waiting) ≡ 0
unfolding total
total-start weight zero h = refl
total-start weight (suc n) h = ground (arith, total-start weight n h)

-- The null items of a queue, its work items, and those that are `a`.
abbrev pub nulls : List (Option ℕ) → ℕ
nulls [] = 0
nulls (none ∷ q) = suc (nulls q)
nulls (some x ∷ q) = nulls q

abbrev pub works : List (Option ℕ) → ℕ
works [] = 0
works (none ∷ q) = works q
works (some x ∷ q) = suc (works q)

abbrev pub queued : ℕ → List (Option ℕ) → ℕ
queued a [] = 0
queued a (none ∷ q) = queued a q
queued a (some x ∷ q) = (if a == x then 1 else 0) + queued a q

pub empty_of_counts : (q : List (Option ℕ)) → nulls q ≡ 0 → works q ≡ 0 → q ≡ []
empty_of_counts [] e f = refl
empty_of_counts (none ∷ q) e f = absurd (omega arith)
empty_of_counts (some x ∷ q) e f = absurd (omega arith)

-- No work item stands behind a null item.
abbrev pub WorksFirst : List (Option ℕ) → Type 0
WorksFirst [] = Unit
WorksFirst (none ∷ q) = (works q ≡ 0) × WorksFirst q
WorksFirst (some x ∷ q) = WorksFirst q

pub nulls-append : (p q : List (Option ℕ)) → nulls (p ++ q) ≡ nulls p + nulls q
nulls-append [] q = omega arith
nulls-append (none ∷ p) q = omega (arith, nulls-append p q)
nulls-append (some x ∷ p) q = omega (arith, nulls-append p q)

pub works-append : (p q : List (Option ℕ)) → works (p ++ q) ≡ works p + works q
works-append [] q = omega arith
works-append (none ∷ p) q = omega (arith, works-append p q)
works-append (some x ∷ p) q = omega (arith, works-append p q)

pub queued-append : (a : ℕ) (p q : List (Option ℕ)) → queued a (p ++ q) ≡ queued a p + queued a q
queued-append a [] q = omega arith
queued-append a (none ∷ p) q = omega (arith, queued-append a p q)
queued-append a (some x ∷ p) q = omega (arith, queued-append a p q)

pub queued-le-works : (a : ℕ) (q : List (Option ℕ)) → queued a q ≤ works q
queued-le-works a [] = omega arith
queued-le-works a (none ∷ q) = omega (arith, queued-le-works a q)
queued-le-works a (some x ∷ q) = ground (arith, queued-le-works a q)

-- Anything may follow work items alone.
pub WorksFirst-append : (p q : List (Option ℕ)) → nulls p ≡ 0 → WorksFirst q → WorksFirst (p ++ q)
WorksFirst-append [] q h w = w
WorksFirst-append (none ∷ p) q h w = absurd (omega arith)
WorksFirst-append (some x ∷ p) q h w = WorksFirst-append p q h w
