-- ===== src/Adder/Sums.antt =====
-- The parallel sum against the sequential one.
use Prim.Native.Nat.add
use native.Mathlib.Nat.{add-zero}
use so_1920v_li41n.Prelude.{
  ℕ, zero, suc, ◌+◌, ◌-◌, ◌*◌, ◌/◌, ◌%◌, ◌≤◌, ◌≡◌, ◌∙◌, refl, sym, ap, true, false, List, [], ◌∷◌,
  arith, has, ltb, if◌then◌else◌, update,
}
use so_1920v_li41n.Adder.{
  Long, Range, nprocs, sum_loop, oper_func, seq_adder, make_ranges, run_threads, collect, par_adder,
}

add_suc_shift : (a n : ℕ) → a + suc n ≡ a + 1 + n
add_suc_shift a n = omega arith

quarters : (n : ℕ) → n ≡ n / 4 + (n / 4 + (n / 4 + (n / 4 + n % 4)))
quarters n = omega arith

module _ (long : Long) where
  open long use {Carrier, nought, plus, nought-plus, plus-nought, plus_assoc}

  -- The sum of `n` values from `vals[start]` on.
  abbrev pub sum_from : (ℕ → Carrier) → (start n : ℕ) → Carrier
  sum_from vals start zero = nought
  sum_from vals start (suc n) = plus (vals start) (sum_from vals (start + 1) n)

  sum_loop-eq :
      (rounds curr : ℕ) (vals : ℕ → Carrier) (partial : Carrier)
      → sum_loop long rounds curr vals partial ≡ plus partial (sum_from vals curr rounds)
  unfolding sum_loop
  sum_loop-eq zero curr vals partial = sym (plus-nought partial)
  sum_loop-eq (suc rounds) curr vals partial =
      sum_loop-eq rounds (curr + 1) vals (plus partial (vals curr))
      ∙ plus_assoc partial (vals curr) (sum_from vals (curr + 1) rounds)

  sum_from-append :
      (vals : ℕ → Carrier) (start n k : ℕ)
      → sum_from vals start (n + k) ≡ plus (sum_from vals start n) (sum_from vals (start + n) k)
  sum_from-append vals start zero k = rw (add.zero k, add-zero start, nought-plus)
  sum_from-append vals start (suc n) k =
      rw (add.suc n k, add_suc_shift start n)
        (ap (plus (vals start)) (sum_from-append vals (start + 1) n k)
          ∙ sym (
              plus_assoc (vals start) (sum_from vals (start + 1) n)
                (sum_from vals (start + 1 + n) k)))

  run_threads-cases :
      (order : List ℕ) (vals : ℕ → Carrier) (ranges : ℕ → Range Carrier) (i : ℕ)
      → (run_threads long order vals ranges i).count
        ≡ (if has i order then (oper_func long vals (ranges i)).count else (ranges i).count)
  unfolding run_threads oper_func
  run_threads-cases [] vals ranges i = refl
  run_threads-cases (j ∷ order) vals ranges i =
      ground
        (arith, run_threads-cases order vals (update ranges j (oper_func long vals (ranges j))) i)

  -- A thread that has ended has summed its range.
  run_threads-count :
      (order : List ℕ) (vals : ℕ → Carrier) (ranges : ℕ → Range Carrier) (i : ℕ)
      → has i order ≡ true
      → (run_threads long order vals ranges i).count ≡ (oper_func long vals (ranges i)).count
  run_threads-count order vals ranges i h = run_threads-cases order vals ranges i ∙ rw h

  -- The sum of a range as `par_adder` makes it, within the array.
  range-sum :
      (vals : ℕ → Carrier) (start q n : ℕ) (count : Carrier)
      → start + q ≤ n
      → (oper_func long vals (record {
        start = start;
        last = if ltb n (start + q) then n else start + q;
        count = count;
      })).count
        ≡ sum_from vals start q
  unfolding oper_func
  range-sum vals start q n count h =
      let inside : ltb n (start + q) ≡ false = ground arith in
      let size : start + q - start ≡ q = omega arith in
      rw (inside, size) (sum_loop-eq q start vals nought ∙ nought-plus (sum_from vals start q))

  module _ (vals : ℕ → Carrier) (q rest : ℕ) where
    four_blocks :
        sum_from vals 0 (q + (q + (q + (q + rest))))
        ≡ plus
            (plus
              (plus
                (plus (sum_from vals 0 q) (sum_from vals (0 + q) q))
                (sum_from vals (0 + q + q) q))
              (sum_from vals (0 + q + q + q) q))
            (sum_from vals (0 + q + q + q + q) rest)
    four_blocks =
        rw
          (
            sum_from-append vals 0 q (q + (q + (q + rest))),
            sum_from-append vals (0 + q) q (q + (q + rest)),
            sum_from-append vals (0 + q + q) q (q + rest),
            sum_from-append vals (0 + q + q + q) q rest,
          )
          (simp plus_assoc)

  par_adder-blocks :
      (order : List ℕ) (vals : ℕ → Carrier) (n : ℕ) (ranges : ℕ → Range Carrier)
      → has 0 order ≡ true
      → has 1 order ≡ true
      → has 2 order ≡ true
      → has 3 order ≡ true
      → let q = n / 4 in
        par_adder long order vals n ranges
        ≡ plus
            (plus
              (plus (sum_from vals 0 q) (sum_from vals (0 + q) q))
              (sum_from vals (0 + q + q) q))
            (sum_from vals (0 + q + q + q) q)
  unfolding par_adder make_ranges collect
  par_adder-blocks order vals n ranges h0 h1 h2 h3 =
      let q = n / 4 in
      let made = make_ranges long nprocs 0 0 q n ranges in
      let sum = run_threads-count order vals made in
      rw (
        sum 0 h0 ∙ range-sum vals 0 q n nought (omega arith),
        sum 1 h1 ∙ range-sum vals (0 + q) q n nought (omega arith),
        sum 2 h2 ∙ range-sum vals (0 + q + q) q n nought (omega arith),
        sum 3 h3 ∙ range-sum vals (0 + q + q + q) q n nought (omega arith),
        nought-plus,
      )

  -- Whatever the order in which the four threads end, the sequential sum is that of `par_adder` and
  -- the last `nvals % 4` values, which no thread adds.
  pub seq_adder-par_adder :
      (order : List ℕ) (vals : ℕ → Carrier) (nvals : ℕ) (ranges : ℕ → Range Carrier)
      → has 0 order ≡ true
      → has 1 order ≡ true
      → has 2 order ≡ true
      → has 3 order ≡ true
      → seq_adder long vals nvals
        ≡ plus
            (par_adder long order vals nvals ranges)
            (sum_from vals (4 * (nvals / 4)) (nvals % 4))
  unfolding seq_adder
  seq_adder-par_adder order vals n ranges h0 h1 h2 h3 =
      let q = n / 4 in
      let at_end : 0 + q + q + q + q ≡ 4 * q = omega arith in
      sum_loop-eq n 0 vals nought
      ∙ nought-plus (sum_from vals 0 n)
      ∙ ap (λ (k : ℕ). sum_from vals 0 k) (quarters n)
      ∙ four_blocks vals q (n % 4)
      ∙ rw (par_adder-blocks order vals n ranges h0 h1 h2 h3, at_end)
