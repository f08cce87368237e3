-- ===== src/Adder/Pool/Sound.antt =====
-- The sum that the main thread collects from the pool.
use so_1920v_li41n.Prelude.{
  ℕ, zero, suc, ◌+◌, ◌-◌, ◌/◌, ◌≤◌, ◌<◌, ◌≡◌, ◌≢◌, ◌∙◌, refl, sym, ap, true, false, ◌||◌, some,
  List, [], ◌∷◌, ◌==◌, ltb, has, has-append, if◌then◌else◌, update, arith, length, length-append,
  Bool-cases, inl, inr, remove, length-remove, has-remove, has-remove_other,
}
use so_1920v_li41n.Adder.{Long, Range, nprocs, sum_loop, oper_func}
use so_1920v_li41n.Latch.{Place, outside, testing, blocked, passed, cdl_signal_one, woken}
use so_1920v_li41n.Adder.Pool.{State, par_adder_submit}

woken-running : (p : Place) → woken p ≢ blocked
woken-running outside e = absurd (ground (arith, e))
woken-running testing e = absurd (ground (arith, e))
woken-running blocked e = absurd (ground (arith, e))
woken-running passed e = absurd (ground (arith, e))

module _ (long : Long) (vals : ℕ → Long.Carrier long) (nvals : ℕ) where
  open long use {Carrier, nought, plus}

  abbrev pub start_of : ℕ → ℕ
  start_of zero = 0
  start_of (suc j) = start_of j + nvals / nprocs

  start_of-next : (j : ℕ) → start_of (j + 1) ≡ start_of j + nvals / nprocs
  start_of-next j = let e : j + 1 ≡ suc j = omega arith in ap start_of e

  abbrev pub last_of : ℕ → ℕ
  last_of j = if ltb nvals (start_of j + nvals / nprocs) then nvals else start_of j + nvals / nprocs

  -- The sum of the range `j`.
  abbrev pub sum_of : ℕ → Carrier
  sum_of j = sum_loop long (last_of j - start_of j) (start_of j) vals nought

  abbrev pub all_sums : Carrier
  all_sums = plus (plus (plus (plus nought (sum_of 0)) (sum_of 1)) (sum_of 2)) (sum_of 3)

  pub record Inv (s : State Carrier) : Type 0 where
    pub rounds : s.i ≤ nprocs
    pub curr : s.curr ≡ start_of s.i
    pub made :
        (j : ℕ) → j < s.i → ((s.ranges j).start ≡ start_of j) × ((s.ranges j).last ≡ last_of j)
    pub ready :
        (j : ℕ)
        → j < s.i
        → has j s.submitted ≡ false
        → has j s.taken ≡ false
        → (s.ranges j).count ≡ sum_of j
    pub known : (j : ℕ) → (has j s.submitted || has j s.taken) ≡ true → j < s.i
    pub size : length s.submitted + length s.taken + length s.summed + nprocs ≡ s.i + s.cdl.counter
    pub opened : s.cdl.thread 0 ≡ passed → s.cdl.counter ≡ 0
    pub held : s.cdl.thread 0 ≡ blocked → 0 < s.cdl.counter
    pub answer : (x : Carrier) → s.result ≡ some x → x ≡ all_sums

  module _ (s : State Carrier) where
    pub submit-Inv : Inv s → s.i < nprocs → Inv (par_adder_submit long vals nvals s)
    unfolding par_adder_submit
    submit-Inv v more = record {
      rounds = omega (arith, more);
      curr = rw (start_of-next s.i, v.curr) refl;
      made = λ j lt. elim (Bool-cases (j == s.i)) [
        | inl new ↦ ground (arith, new, v.curr)
        | inr old ↦ ground (arith, old, v.made j (ground (arith, lt, old)))
      ];
      ready = λ j lt a b. elim (Bool-cases (j == s.i)) [
        | inl new ↦ absurd (ground (arith, new, a, has-append j s.submitted (s.i ∷ [])))
        | inr old ↦ ground (
          arith,
          old,
          v.ready j (ground (arith, lt, old))
              (ground (arith, a, has-append j s.submitted (s.i ∷ []))) b,
        )
      ];
      known = λ j h. elim (Bool-cases (j == s.i)) [
        | inl new ↦ ground (arith, new)
        | inr old ↦
            let before : j < s.i =
              v.known j (ground (arith, h, old, has-append j s.submitted (s.i ∷ []))) in
            omega (arith, before)
      ];
      size = omega (arith, v.size, length-append s.submitted (s.i ∷ []));
      opened = v.opened;
      held = v.held;
      answer = v.answer;
    }

    pub take-Inv :
        (i : ℕ) (rest : List ℕ)
        → Inv s
        → s.submitted ≡ i ∷ rest
        → Inv (record s { submitted = rest; taken = i ∷ s.taken })
    take-Inv i rest v e =
        let sizes = ap (λ (xs : List ℕ). length xs) e in
        record {
          rounds = v.rounds;
          curr = v.curr;
          made = v.made;
          ready = λ j lt a b. v.ready j lt (ground (arith, e, a, b)) (ground (arith, b));
          known = λ j h. v.known j (ground (arith, e, h));
          size = omega (arith, v.size, sizes);
          opened = v.opened;
          held = v.held;
          answer = v.answer;
        }

    oper_func-sum :
        (j : ℕ) (r : Range Carrier)
        → r.start ≡ start_of j
        → r.last ≡ last_of j
        → (oper_func long vals r).count ≡ sum_of j
    unfolding oper_func
    oper_func-sum j r a b = rw (a, b) refl

    pub sum-Inv :
        (i : ℕ)
        → Inv s
        → has i s.taken ≡ true
        → Inv (record s {
          ranges = update s.ranges i (oper_func long vals (s.ranges i));
          taken = remove i s.taken;
          summed = i ∷ s.summed;
        })
    unfolding oper_func
    sum-Inv i v h =
        let inside = v.known i (ground (arith, h)) in
        record {
          rounds = v.rounds;
          curr = v.curr;
          made = λ j lt. elim (Bool-cases (j == i)) [
            | inl new ↦ ground (arith, new, v.made i inside)
            | inr old ↦ ground (arith, old, v.made j lt)
          ];
          ready = λ j lt a b. elim (Bool-cases (j == i)) [
            | inl new ↦
                let (x, y) = v.made i inside in
                ground (arith, new, oper_func-sum i (s.ranges i) x y)
            | inr old ↦
                let other : j ≢ i = ground (arith, old) in
                ground (arith, old, v.ready j lt a (sym (has-remove_other j i s.taken other) ∙ b))
          ];
          known = λ j e. elim (Bool-cases (has j s.submitted)) [
            | inl waits ↦ v.known j (ground (arith, waits))
            | inr gone ↦ v.known j (ground (arith, e, gone, has-remove j i s.taken))
          ];
          size = omega (arith, v.size, length-remove i s.taken h);
          opened = v.opened;
          held = v.held;
          answer = v.answer;
        }

    pub signal-Inv :
        (i : ℕ)
        → Inv s
        → has i s.summed ≡ true
        → Inv (record s { cdl = cdl_signal_one s.cdl; summed = remove i s.summed })
    unfolding cdl_signal_one
    signal-Inv i v h = elim (Bool-cases (s.cdl.counter == 1)) [
      | inl last ↦ record {
        rounds = v.rounds;
        curr = v.curr;
        made = v.made;
        ready = v.ready;
        known = v.known;
        size = ground (arith, v.size, length-remove i s.summed h, last);
        opened = λ e. ground (arith, last);
        held = λ e. absurd (woken-running (s.cdl.thread 0) (ground (arith, last, e)));
        answer = v.answer;
      }
      | inr more ↦ record {
        rounds = v.rounds;
        curr = v.curr;
        made = v.made;
        ready = v.ready;
        known = v.known;
        size = ground (arith, v.size, v.rounds, length-remove i s.summed h, more);
        opened = λ e. ground (arith, more, e, v.opened);
        held = λ e. ground (arith, more, e, v.held);
        answer = v.answer;
      }
    ]
