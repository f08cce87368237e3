-- ===== src/Latch/Atomic.antt =====
-- aula-05-13/cdl.c: the latch whose counter is atomic, and lowered before the lock is taken.
-- `cdl_signal_one` is two steps: the subtraction, and the broadcast under the lock.
use so_1920v_li41n.Prelude.{
  ℕ, zero, suc, ◌+◌, ◌-◌, ◌≤◌, ◌<◌, ◌≡◌, ◌≢◌, refl, arith, ltb, if◌then◌else◌, update,
}
use so_1920v_li41n.Latch.{Place, outside, testing, blocked, passed, woken}

-- `pending` counts the threads between the two steps.
pub record AtomicCdl : Type 0 where
  pub counter : ℕ
  pub thread : ℕ → Place
  pub pending : ℕ

unfoldable pub cdl_init : ℕ → AtomicCdl
cdl_init initial = record { counter = initial; thread = λ t. outside; pending = 0 }

unfoldable pub cdl_signal_sub : AtomicCdl → AtomicCdl
cdl_signal_sub cdl = record cdl {
  counter = cdl.counter - 1;
  pending = if ltb 1 cdl.counter then cdl.pending else cdl.pending + 1;
}

unfoldable pub cdl_signal_broadcast : AtomicCdl → AtomicCdl
cdl_signal_broadcast cdl = record cdl {
  thread = λ t. woken (cdl.thread t);
  pending = cdl.pending - 1;
}

unfoldable pub cdl_wait_for_all : ℕ → AtomicCdl → AtomicCdl
cdl_wait_for_all t cdl = record cdl {
  thread = update cdl.thread t (if ltb 0 cdl.counter then blocked else passed);
}

pub record System : Type 0 where
  pub cdl : AtomicCdl
  pub signals : ℕ

abbrev pub place : ℕ → Place → AtomicCdl → AtomicCdl
place t p cdl = record cdl { thread = update cdl.thread t p }

pub data Step (s : System) : System → Type 0 where
  call : (t : ℕ) → s.cdl.thread t ≡ outside → Step s (record s { cdl = place t testing s.cdl })
  test : (t : ℕ) → s.cdl.thread t ≡ testing → Step s (record s { cdl = cdl_wait_for_all t s.cdl })
  wake : (t : ℕ) → s.cdl.thread t ≡ blocked → Step s (record s { cdl = place t testing s.cdl })
  signal_sub : Step s (record { cdl = cdl_signal_sub s.cdl; signals = s.signals + 1 })
  signal_broadcast : 0 < s.cdl.pending → Step s (record s { cdl = cdl_signal_broadcast s.cdl })

pub data Reach (initial : ℕ) : System → Type 0 where
  here : Reach initial (record { cdl = cdl_init initial; signals = 0 })
  next : {s t : System} → Reach initial s → Step s t → Reach initial t

record Inv (initial : ℕ) (s : System) : Type 0 where
  counted : s.cdl.counter ≡ initial - s.signals
  safe : (t : ℕ) → s.cdl.thread t ≡ passed → s.cdl.counter ≡ 0
  live : (t : ℕ) → s.cdl.thread t ≡ blocked → 0 < s.cdl.counter + s.cdl.pending

Step-Inv : {s s' : System} (initial : ℕ) → Step s s' → Inv initial s → Inv initial s'
unfolding cdl_signal_sub cdl_signal_broadcast cdl_wait_for_all
Step-Inv {s} initial (call t e) i = record {
  counted = i.counted;
  safe = λ u h. ground (arith, i.safe u);
  live = λ u h. ground (arith, i.live u);
}
Step-Inv {s} initial (test t e) i = record {
  counted = i.counted;
  safe = λ u h. ground (arith, i.safe u);
  live = λ u h. ground (arith, i.live u);
}
Step-Inv {s} initial (wake t e) i = record {
  counted = i.counted;
  safe = λ u h. ground (arith, i.safe u);
  live = λ u h. ground (arith, i.live u);
}
Step-Inv {s} initial signal_sub i = record {
  counted = omega (arith, i.counted);
  safe = λ u h. ground (arith, i.safe u);
  live = λ u h. ground (arith, i.live u);
}
Step-Inv {s} initial (signal_broadcast p) i = record {
  counted = i.counted;
  safe = λ u h. ground (arith, i.safe u);
  live = λ u h. ground (arith, i.live u);
}

Reach-Inv : (initial : ℕ) {s : System} → Reach initial s → Inv initial s
unfolding cdl_init
Reach-Inv initial here = record {
  counted = omega arith;
  safe = λ t h. absurd (cc);
  live = λ t h. absurd (cc);
}
Reach-Inv initial (next r st) = Step-Inv initial st (Reach-Inv initial r)

-- In every reachable state a thread has passed only if all the signals were given. Once they were,
-- and every broadcast is made, no thread is left waiting on the condition.
pub atomic_wait-passes :
    {s : System} (initial t : ℕ)
    → Reach initial s
    → (s.cdl.thread t ≡ passed → initial ≤ s.signals)
      × (initial ≤ s.signals → s.cdl.pending ≡ 0 → s.cdl.thread t ≢ blocked)
atomic_wait-passes {s} initial t r =
    let i = Reach-Inv initial r in
    (
      λ p. omega (arith, i.counted, i.safe t p),
      λ all none_left b. omega (arith, i.counted, i.live t b),
    )

-- A run of `k` signals, with more to come.
record Signalled (initial k : ℕ) (s : System) : Type 0 where
  reached : Reach initial s
  counter : s.cdl.counter ≡ initial - k
  none_pending : s.cdl.pending ≡ 0
  nobody : (u : ℕ) → s.cdl.thread u ≡ outside

signalled : (initial k : ℕ) → k < initial → (s : System) × Signalled initial k s
unfolding cdl_init cdl_signal_sub
signalled initial zero h =
    (_, record { reached = here; counter = omega arith; none_pending = refl; nobody = λ u. refl })
signalled initial (suc k) h =
    let (s, g) = signalled initial k (omega arith) in
    (
      record { cdl = cdl_signal_sub s.cdl; signals = s.signals + 1 },
      record {
        reached = next g.reached signal_sub;
        counter = omega (arith, g.counter);
        none_pending = ground (arith, g.counter, g.none_pending);
        nobody = g.nobody;
      },
    )

-- For every count there is a run in which a thread returns from `cdl_wait_for_all`, and so may
-- destroy the latch, while the thread that gave the last signal has still to lock it.
pub cdl_signal_sub-early :
    (initial t : ℕ)
    → 0 < initial
    → (s : System) × Reach initial s × (s.cdl.thread t ≡ passed) × (s.cdl.pending ≡ 1)
unfolding cdl_signal_sub cdl_wait_for_all
cdl_signal_sub-early initial t h =
    let (s, g) = signalled initial (initial - 1) (omega arith) in
    let last : System = record { cdl = cdl_signal_sub s.cdl; signals = s.signals + 1 } in
    let called : System = record last { cdl = place t testing last.cdl } in
    (
      record called { cdl = cdl_wait_for_all t called.cdl },
      next (next (next g.reached signal_sub) (call t (g.nobody t))) (test t (ground arith)),
      ground (arith, g.counter),
      ground (arith, g.counter, g.none_pending),
    )
