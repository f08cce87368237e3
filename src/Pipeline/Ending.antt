-- ===== src/Pipeline/Ending.antt =====
-- No thread of the pipeline waits for ever, and what the presenter has printed at the end.
use mathlib.Core.Path.{subst}
use so_1920v_li41n.Prelude.{
  ℕ, ◌≡◌, ◌∙◌, ap, refl, Bool, true, Option, none, some, List, [], ◌∷◌, arith, if◌then◌else◌,
  Bool-cases, Option-cases, inl, inr,
}
use so_1920v_li41n.Pipeline.{
  Queue, queue_init, queue_put_wait, queue_put_rest, queue_get_wait, queue_get_rest, Reader,
  reading, putting, inserting, closed, Filter, waiting, removing, testing, passing, appending,
  ended, Presenter, expecting, fetching, printing, finished, Pipe, reader_step, filter_step,
  presenter_step, after_get, after_fetch, Turn, reads, filters, presents, step, run, start,
  reader_open,
}
use so_1920v_li41n.Pipeline.Stream.{Inv, lines_out, shown, through, has_null}
use so_1920v_li41n.Pipeline.Progress.{lines_of}

-- The lines that contain the word, in the order of the file.
abbrev pub matching : (strstr : ℕ → Bool) → List ℕ → List ℕ
matching strstr [] = []
matching strstr (x ∷ xs) = if strstr x then x ∷ matching strstr xs else matching strstr xs

module _ (strstr : ℕ → Bool) where
  lines_out-shown : (xs : List ℕ) → shown (through strstr (lines_out xs)) ≡ matching strstr xs
  lines_out-shown [] = refl
  lines_out-shown (x ∷ xs) = elim (Bool-cases (strstr x)) [
    | inl match ↦ rw (match) (ap (λ ys. x ∷ ys) (lines_out-shown xs))
    | inr other ↦ rw (other) (lines_out-shown xs)
  ]

  lines_out-null : (xs : List ℕ) → has_null (through strstr (lines_out xs)) ≡ true
  lines_out-null [] = refl
  lines_out-null (x ∷ xs) = elim (Bool-cases (strstr x)) [
    | inl match ↦ rw (match) (lines_out-null xs)
    | inr other ↦ rw (other) (lines_out-null xs)
  ]

  pub start-Inv :
      (file : Option (List ℕ)) → Inv strstr (matching strstr (lines_of file)) (start file)
  unfolding start reader_open queue_init
  start-Inv none = record {
    total = refl;
    alive = refl;
    reader_queue = record { items = refl; space = refl };
    filter_queue = record { items = refl; space = refl };
    freed = refl;
    counted = refl;
  }
  start-Inv (some xs) = record {
    total = lines_out-shown xs;
    alive = lines_out-null xs;
    reader_queue = record { items = refl; space = refl };
    filter_queue = record { items = refl; space = refl };
    freed = refl;
    counted = refl;
  }

abbrev pub Sizes : (s s' : Pipe) → Type 0
Sizes s s' = (s'.qreader.size ≡ s.qreader.size) × (s'.qfilter.size ≡ s.qfilter.size)

get_rest-size :
    (q : Queue) (xs : List (Option ℕ)) {item : Option ℕ} {q' : Queue}
    → queue_get_rest (record q { list = xs }) ≡ some (item, q')
    → q'.size ≡ q.size
unfolding queue_get_rest
get_rest-size q [] h = absurd (ground (arith, h))
get_rest-size q (x ∷ xs) h = ground (arith, h)

module _ (strstr : ℕ → Bool) where
  reader_step-size :
      (s : Pipe) (r : Reader) {s' : Pipe}
      → reader_step (record s { reader = r }) ≡ some s'
      → Sizes s s'
  unfolding reader_step queue_put_wait queue_put_rest
  reader_step-size s (reading []) h = ground (arith, h)
  reader_step-size s (reading (x ∷ xs)) h = ground (arith, h)
  reader_step-size s (putting item rest) h = ground (arith, h)
  reader_step-size s (inserting item rest) h = ground (arith, h)
  reader_step-size s closed h = absurd (ground (arith, h))

  filter_step-size :
      (s : Pipe) (f : Filter) {s' : Pipe}
      → filter_step strstr (record s { filter = f }) ≡ some s'
      → Sizes s s'
  unfolding filter_step queue_put_wait queue_get_wait queue_put_rest
  filter_step-size s waiting h = ground (arith, h)
  filter_step-size s removing {s'} h = elim (Option-cases (queue_get_rest s.qreader)) [
    | inl fault ↦ absurd (ground (arith, h, fault))
    | inr (r, got) ↦
        let s1 : Pipe = record s { qreader = r.1; filter = after_get r.0 } in
        let g : s1 ≡ s' = ground (arith, h, got) in
        subst (Sizes s) g (get_rest-size s.qreader s.qreader.list {item = r.0} {q' = r.1} got, refl)
  ]
  filter_step-size s (testing x) h = ground (arith, h)
  filter_step-size s (passing item) h = ground (arith, h)
  filter_step-size s (appending item) h = ground (arith, h)
  filter_step-size s ended h = absurd (ground (arith, h))

  presenter_step-size :
      (s : Pipe) (p : Presenter) {s' : Pipe}
      → presenter_step (record s { presenter = p }) ≡ some s'
      → Sizes s s'
  unfolding presenter_step queue_get_wait
  presenter_step-size s expecting h = ground (arith, h)
  presenter_step-size s fetching {s'} h = elim (Option-cases (queue_get_rest s.qfilter)) [
    | inl fault ↦ absurd (ground (arith, h, fault))
    | inr (r, got) ↦
        let s1 : Pipe = record s { qfilter = r.1; presenter = after_fetch r.0 } in
        let g : s1 ≡ s' = ground (arith, h, got) in
        subst (Sizes s) g (refl, get_rest-size s.qfilter s.qfilter.list {item = r.0} {q' = r.1} got)
  ]
  presenter_step-size s (printing x) h = ground (arith, h)
  presenter_step-size s finished h = absurd (ground (arith, h))

  step-size : (t : Turn) (s : Pipe) {s' : Pipe} → step strstr t s ≡ some s' → Sizes s s'
  unfolding step
  step-size reads s h = reader_step-size s s.reader h
  step-size filters s h = filter_step-size s s.filter h
  step-size presents s h = presenter_step-size s s.presenter h

  pub run-size : (ts : List Turn) (s : Pipe) {s' : Pipe} → run strstr ts s ≡ some s' → Sizes s s'
  unfolding run
  run-size [] s {s'} h = let g : s ≡ s' = ground (arith, h) in subst (Sizes s) g (refl, refl)
  run-size (t ∷ ts) s h = elim (Option-cases (step strstr t s)) [
    | inl stuck ↦ absurd (ground (arith, h, stuck))
    | inr (s1, took) ↦
        let (a, b) = step-size t s {s' = s1} took in
        let (c, d) = run-size ts s1 (rw (run, took) at h) in (c ∙ a, d ∙ b)
  ]
