-- ===== src/Pipeline/Progress.antt =====
-- The pipeline ends, with the lines that contain the word printed.
use mathlib.Core.Path.{subst}
use so_1920v_li41n.Prelude.{
  ℕ, ◌+◌, ◌*◌, ◌≤◌, ◌<◌, ◌≡◌, ap, Bool, Option, none, some, List, [], ◌∷◌, arith, length,
  length-append, Option-cases, inl, inr,
}
use so_1920v_li41n.Pipeline.{
  Queue, queue_init, queue_put_wait, queue_put_rest, queue_get_wait, queue_get_rest, Reader,
  reading, putting, inserting, closed, Filter, waiting, removing, testing, passing, appending,
  ended, Presenter, expecting, fetching, printing, finished, Pipe, reader_step, filter_step,
  presenter_step, after_get, after_pass, after_fetch, Turn, reads, filters, presents, step, run,
  start, reader_open,
}

-- A bound on the steps that are left: what each item in a queue and each place of a thread costs.
abbrev pub reader_work : Reader → ℕ
reader_work (reading rest) = 11 * length rest + 11
reader_work (putting none rest) = 10
reader_work (putting (some x) rest) = 11 * length rest + 21
reader_work (inserting none rest) = 9
reader_work (inserting (some x) rest) = 11 * length rest + 20
reader_work closed = 0

abbrev pub filter_work : Filter → ℕ
filter_work waiting = 1
filter_work removing = 0
filter_work (testing x) = 7
filter_work (passing item) = 6
filter_work (appending item) = 5
filter_work ended = 0

abbrev pub presenter_work : Presenter → ℕ
presenter_work expecting = 1
presenter_work fetching = 0
presenter_work (printing x) = 2
presenter_work finished = 0

abbrev pub work : Pipe → ℕ
work s =
    reader_work s.reader
    + 8 * length s.qreader.list
    + filter_work s.filter
    + 3 * length s.qfilter.list
    + presenter_work s.presenter

put_rest-length :
    (item : Option ℕ) (q : Queue) → length (queue_put_rest item q).list ≡ length q.list + 1
unfolding queue_put_rest
put_rest-length item q = omega (arith, length-append q.list (item ∷ []))

get_rest-length :
    (q : Queue) (xs : List (Option ℕ)) {item : Option ℕ} {q' : Queue}
    → queue_get_rest (record q { list = xs }) ≡ some (item, q')
    → length xs ≡ length q'.list + 1
unfolding queue_get_rest
get_rest-length q [] h = absurd (ground (arith, h))
get_rest-length q (x ∷ xs) h = ground (arith, h)

reader_step-work :
    (s : Pipe) (r : Reader) {s' : Pipe}
    → reader_step (record s { reader = r }) ≡ some s'
    → work s' < work (record s { reader = r })
unfolding reader_step queue_put_wait
reader_step-work s (reading []) h = ground (arith, h)
reader_step-work s (reading (x ∷ xs)) h = ground (arith, h)
reader_step-work s (putting none rest) h = ground (arith, h)
reader_step-work s (putting (some x) rest) h = ground (arith, h)
reader_step-work s (inserting none rest) h = ground (arith, h, put_rest-length none s.qreader)
reader_step-work s (inserting (some x) rest) h =
    ground (arith, h, put_rest-length (some x) s.qreader)
reader_step-work s closed h = absurd (ground (arith, h))

after_get-work : (item : Option ℕ) → filter_work (after_get item) ≤ 7
after_get-work none = omega arith
after_get-work (some x) = omega arith

after_pass-work : (item : Option ℕ) → filter_work (after_pass item) ≤ 1
after_pass-work none = omega arith
after_pass-work (some x) = omega arith

after_fetch-work : (item : Option ℕ) → presenter_work (after_fetch item) ≤ 2
after_fetch-work none = omega arith
after_fetch-work (some x) = omega arith

filter_step-work :
    (strstr : ℕ → Bool) (s : Pipe) (f : Filter) {s' : Pipe}
    → filter_step strstr (record s { filter = f }) ≡ some s'
    → work s' < work (record s { filter = f })
unfolding filter_step queue_get_wait queue_put_wait
filter_step-work strstr s waiting h = ground (arith, h)
filter_step-work strstr s removing {s'} h = elim (Option-cases (queue_get_rest s.qreader)) [
  | inl fault ↦ absurd (ground (arith, h, fault))
  | inr (r, got) ↦
      let s1 : Pipe = record s { qreader = r.1; filter = after_get r.0 } in
      let g : s1 ≡ s' = ground (arith, h, got) in
      subst (λ (x : Pipe). work x < work (record s { filter = removing })) g
        (omega (
          arith,
          get_rest-length s.qreader s.qreader.list {item = r.0} {q' = r.1} got,
          after_get-work r.0,
        ))
]
filter_step-work strstr s (testing x) h = ground (arith, h)
filter_step-work strstr s (passing item) h = ground (arith, h)
filter_step-work strstr s (appending item) h =
    ground (arith, h, put_rest-length item s.qfilter, after_pass-work item)
filter_step-work strstr s ended h = absurd (ground (arith, h))

presenter_step-work :
    (s : Pipe) (p : Presenter) {s' : Pipe}
    → presenter_step (record s { presenter = p }) ≡ some s'
    → work s' < work (record s { presenter = p })
unfolding presenter_step queue_get_wait
presenter_step-work s expecting h = ground (arith, h)
presenter_step-work s fetching {s'} h = elim (Option-cases (queue_get_rest s.qfilter)) [
  | inl fault ↦ absurd (ground (arith, h, fault))
  | inr (r, got) ↦
      let s1 : Pipe = record s { qfilter = r.1; presenter = after_fetch r.0 } in
      let g : s1 ≡ s' = ground (arith, h, got) in
      subst (λ (x : Pipe). work x < work (record s { presenter = fetching })) g
        (omega (
          arith,
          get_rest-length s.qfilter s.qfilter.list {item = r.0} {q' = r.1} got,
          after_fetch-work r.0,
        ))
]
presenter_step-work s (printing x) h = ground (arith, h)
presenter_step-work s finished h = absurd (ground (arith, h))

step-work :
    (strstr : ℕ → Bool) (t : Turn) (s : Pipe) {s' : Pipe}
    → step strstr t s ≡ some s'
    → work s' < work s
unfolding step
step-work strstr reads s h = reader_step-work s s.reader h
step-work strstr filters s h = filter_step-work strstr s s.filter h
step-work strstr presents s h = presenter_step-work s s.presenter h

run-work :
    (strstr : ℕ → Bool) (ts : List Turn) (s : Pipe) {s' : Pipe}
    → run strstr ts s ≡ some s'
    → length ts + work s' ≤ work s
unfolding run
run-work strstr [] s {s'} h =
    let g : s ≡ s' = ground (arith, h) in omega (arith, ap (λ (x : Pipe). work x) g)
run-work strstr (t ∷ ts) s {s'} h = elim (Option-cases (step strstr t s)) [
  | inl stuck ↦ absurd (ground (arith, h, stuck))
  | inr (s1, took) ↦ omega (
    arith,
    step-work strstr t s {s' = s1} took,
    run-work strstr ts s1 {s' = s'} (rw (run, took) at h),
  )
]

-- The file's lines that the reader reads, if it can be opened.
abbrev pub lines_of : Option (List ℕ) → List ℕ
lines_of none = []
lines_of (some lines) = lines

-- No schedule has more steps than eleven for each line of the file, and thirteen: the three threads
-- end, whatever the order.
pub run-length :
    (strstr : ℕ → Bool) (file : Option (List ℕ)) (ts : List Turn) {s : Pipe}
    → run strstr ts (start file) ≡ some s
    → length ts ≤ 11 * length (lines_of file) + 13
unfolding start reader_open queue_init
run-length strstr none ts {s} h = omega (arith, run-work strstr ts (start none) {s' = s} h)
run-length strstr (some xs) ts {s} h =
    omega (arith, run-work strstr ts (start (some xs)) {s' = s} h)
