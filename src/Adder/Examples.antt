-- ===== src/Adder/Examples.antt =====
-- Ten ones, added by four threads of which the third ends first, and a second and a half.
use native.Mathlib.Nat.{add_assoc, add-zero}
use Prim.Native.Nat.add
use so_1920v_li41n.Prelude.{ℕ, ◌+◌, ◌≡◌, refl, arith, [], ◌∷◌}
use so_1920v_li41n.Adder.{Long, Range, seq_adder, par_adder}
use so_1920v_li41n.Adder.Sums.{sum_from, seq_adder-par_adder}
use so_1920v_li41n.Adder.Chrono.{Timespec, chrono_micros, chrono_micros_lem}

abbrev pub counts : Long
counts = record {
  Carrier = ℕ;
  nought = 0;
  plus = ◌+◌;
  nought-plus = add.zero;
  plus-nought = add-zero;
  plus_assoc = add_assoc;
}

abbrev pub empty : ℕ → Range ℕ
empty i = record { start = 0; last = 0; count = 0 }

seq_adder-par_adder_example :
    seq_adder counts (λ i. 1) 10
    ≡ par_adder counts (2 ∷ 0 ∷ 3 ∷ 1 ∷ []) (λ i. 1) 10 empty + sum_from counts (λ i. 1) 8 2
seq_adder-par_adder_example =
    seq_adder-par_adder counts (2 ∷ 0 ∷ 3 ∷ 1 ∷ []) (λ i. 1) 10 empty refl refl refl refl

abbrev begin : Timespec
begin = record { tv_sec = 5; tv_nsec = 900000000 }

abbrev now : Timespec
now = record { tv_sec = 7; tv_nsec = 400000000 }

chrono_micros_lem_example : chrono_micros now begin ≡ 1500000
chrono_micros_lem_example = chrono_micros_lem now begin (omega arith) (omega arith) (omega arith)
