-- ===== src/Latch/Waits.antt =====
-- Who passes the latch, and when, whatever the order of the calls.
use so_1920v_li41n.Prelude.{
  ℕ, ◌+◌, ◌-◌, ◌<◌, ◌≡◌, ◌≢◌, arith, update, ltb, Bool-cases, inl, inr, if◌then◌else◌,
}
use so_1920v_li41n.Latch.{
  Place, outside, testing, blocked, passed, Cdl, cdl_init, cdl_signal_one, cdl_wait_for_all,
}

-- A latch and the number of signals that it was given.
pub record System : Type 0 where
  pub cdl : Cdl
  pub signals : ℕ

abbrev pub place : ℕ → Place → Cdl → Cdl
place t p cdl = record cdl { thread = update cdl.thread t p }

-- A wait on a condition may also end by itself.
pub data Step (s : System) : System → Type 0 where
  call : (t : ℕ) → s.cdl.thread t ≡ outside → Step s (record s { cdl = place t testing s.cdl })
  test : (t : ℕ) → s.cdl.thread t ≡ testing → Step s (record s { cdl = cdl_wait_for_all t s.cdl })
  wake : (t : ℕ) → s.cdl.thread t ≡ blocked → Step s (record s { cdl = place t testing s.cdl })
  signal : Step s (record { cdl = cdl_signal_one s.cdl; signals = s.signals + 1 })

pub data Reach (initial : ℕ) : System → Type 0 where
  here : Reach initial (record { cdl = cdl_init initial; signals = 0 })
  next : {s t : System} → Reach initial s → Step s t → Reach initial t

record Inv (initial : ℕ) (s : System) : Type 0 where
  counted : s.cdl.counter ≡ initial - s.signals
  safe : (t : ℕ) → s.cdl.thread t ≡ passed → s.cdl.counter ≡ 0
  live : (t : ℕ) → s.cdl.thread t ≡ blocked → 0 < s.cdl.counter

Step-Inv : {s s' : System} (initial : ℕ) → Step s s' → Inv initial s → Inv initial s'
unfolding cdl_signal_one cdl_wait_for_all
Step-Inv {s} initial (call t e) i = record {
  counted = i.counted;
  safe = λ u h. ground (arith, i.safe u);
  live = λ u h. ground (arith, i.live u);
}
Step-Inv {s} initial (test t e) i = record {
  counted = i.counted;
  safe = λ u h. ground (arith, i.safe u);
  live = λ u h. ground (arith, i.live u);
}
Step-Inv {s} initial (wake t e) i = record {
  counted = i.counted;
  safe = λ u h. ground (arith, i.safe u);
  live = λ u h. ground (arith, i.live u);
}
Step-Inv {s} initial signal i = record {
  counted = ground (arith, i.counted);
  safe = λ u h. ground (arith, i.safe u);
  live = λ u h. ground (arith, i.live u);
}

Reach-Inv : (initial : ℕ) {s : System} → Reach initial s → Inv initial s
unfolding cdl_init
Reach-Inv initial here = record {
  counted = omega arith;
  safe = λ t h. absurd (cc);
  live = λ t h. absurd (cc);
}
Reach-Inv initial (next r st) = Step-Inv initial st (Reach-Inv initial r)

-- In every reachable state no thread has passed while a signal is missing. Once all were given, no
-- thread is left waiting on the condition, and every thread that tests the counter passes.
pub cdl_wait_for_all-passes :
    {s : System} (initial t : ℕ)
    → Reach initial s
    → if ltb s.signals initial
      then s.cdl.thread t ≢ passed
      else ((s.cdl.thread t ≢ blocked) × ((cdl_wait_for_all t s.cdl).thread t ≡ passed))
unfolding cdl_wait_for_all
cdl_wait_for_all-passes {s} initial t r =
    let i = Reach-Inv initial r in
    elim (Bool-cases (ltb s.signals initial)) [
      | inl some_left ↦ rw some_left (λ p. ground (arith, i.counted, i.safe t p))
      | inr all ↦ rw all (λ b. ground (arith, i.counted, i.live t b), ground (arith, i.counted))
    ]
