-- ===== src/Adder.antt =====
-- aula-05-13a/padder.c and chrono.c of aula-05-11: a sum by four threads, each over a range of its own.
-- An array is a function, and a pointer into `vals` is its index. The threads may run and end in any
-- order; each writes only its own range, and is joined before that range is read.
pub mod Chrono
pub mod Pool
pub mod Examples
pub mod Sums
use so_1920v_li41n.Prelude.{
  ℕ, zero, suc, ◌+◌, ◌-◌, ◌/◌, ◌≡◌, List, [], ◌∷◌, ◌==◌, ltb, if◌then◌else◌, update,
}

-- The values of the C type `long`, as far as no sum overflows.
pub record Long : Type 1 where
  pub Carrier : Type 0
  pub nought : Carrier
  pub plus : Carrier → Carrier → Carrier
  pub nought-plus : (x : Carrier) → plus nought x ≡ x
  pub plus-nought : (x : Carrier) → plus x nought ≡ x
  pub plus_assoc : (x y z : Carrier) → plus (plus x y) z ≡ plus x (plus y z)

pub record Range (A : Type 0) : Type 0 where
  pub start : ℕ
  pub last : ℕ  -- `end`, behind the last element
  pub count : A

abbrev pub nprocs : ℕ
nprocs = 4

module _ (long : Long) where
  open long use {Carrier, nought, plus}

  -- `for (; curr < end; curr++) partial += *curr;`, in `rounds` rounds.
  unfoldable pub sum_loop : (rounds curr : ℕ) → (ℕ → Carrier) → Carrier → Carrier
  sum_loop zero curr vals partial = partial
  sum_loop (suc rounds) curr vals partial =
      sum_loop rounds (curr + 1) vals (plus partial (vals curr))

  unfoldable pub oper_func : (ℕ → Carrier) → Range Carrier → Range Carrier
  oper_func vals range = record range {
    count = sum_loop (range.last - range.start) range.start vals nought;
  }

  unfoldable pub seq_adder : (ℕ → Carrier) → ℕ → Carrier
  seq_adder vals nvals = sum_loop nvals 0 vals nought

  -- The first loop of `par_adder`.
  unfoldable pub make_ranges :
      (rounds i curr range_size nvals : ℕ) → (ℕ → Range Carrier) → ℕ → Range Carrier
  make_ranges zero i curr range_size nvals ranges = ranges
  make_ranges (suc rounds) i curr range_size nvals ranges =
      let range : Range Carrier = record {
        start = curr;
        last = if ltb nvals (curr + range_size) then nvals else curr + range_size;
        count = nought;
      } in
      make_ranges rounds (i + 1) (curr + range_size) range_size nvals (update ranges i range)

  -- The threads that end in the order `order`.
  unfoldable pub run_threads :
      (order : List ℕ) → (ℕ → Carrier) → (ℕ → Range Carrier) → ℕ → Range Carrier
  run_threads [] vals ranges = ranges
  run_threads (i ∷ order) vals ranges =
      run_threads order vals (update ranges i (oper_func vals (ranges i)))

  -- The second loop of `par_adder`.
  unfoldable pub collect : (rounds i : ℕ) → (ℕ → Range Carrier) → Carrier → Carrier
  collect zero i ranges total = total
  collect (suc rounds) i ranges total = collect rounds (i + 1) ranges (plus total (ranges i).count)

  -- `ranges` is what the array on the stack holds at first.
  unfoldable pub par_adder : (order : List ℕ) → (ℕ → Carrier) → ℕ → (ℕ → Range Carrier) → Carrier
  par_adder order vals nvals ranges =
      collect nprocs 0
        (run_threads order vals (make_ranges nprocs 0 0 (nvals / nprocs) nvals ranges)) nought
