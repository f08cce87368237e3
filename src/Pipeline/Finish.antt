-- ===== src/Pipeline/Finish.antt =====
-- What the three threads have done when none of them can go on.
use mathlib.Core.Path.{subst}
use so_1920v_li41n.Prelude.{
  ◌+◌, ◌≤◌, ◌*◌, ℕ, ◌<◌, ◌≡◌, ◌≢◌, ◌∙◌, ap, sym, refl, Bool, Option, none, some, ◌⊎◌, List, [], ◌∷◌,
  ◌++◌, arith, Option-cases, length, inl, inr, append-nil,
}
use so_1920v_li41n.Pipeline.{
  queue_init, queue_put_wait, queue_get_wait, Reader, reading, putting, inserting, closed, Filter,
  waiting, removing, testing, passing, appending, ended, Presenter, expecting, fetching, printing,
  finished, Pipe, reader_step, filter_step, presenter_step, Turn, reads, filters, presents, step,
  run, start,
}
use so_1920v_li41n.Pipeline.Stream.{Counted, Inv, output, presenter_out, puts, appends, fetches}
use so_1920v_li41n.Pipeline.Progress.{lines_of, run-length}
use so_1920v_li41n.Pipeline.Runs.{run-Inv}
use so_1920v_li41n.Pipeline.Queues.{get_rest-some}
use so_1920v_li41n.Pipeline.Ending.{matching, start-Inv, run-size}

length-zero : (xs : List (Option ℕ)) → length xs ≡ 0 → xs ≡ []
length-zero [] h = refl
length-zero (x ∷ xs) h = absurd (omega (arith, h))

module _ (s : Pipe) where
  reader-stuck :
      (r : Reader)
      → reader_step (record s { reader = r }) ≡ none
      → (r ≡ closed) ⊎ ((puts r ≡ 0) × (s.qreader.has_space ≡ 0))
  unfolding reader_step queue_put_wait
  reader-stuck (reading []) h = absurd (ground (arith, h))
  reader-stuck (reading (x ∷ xs)) h = absurd (ground (arith, h))
  reader-stuck (putting item rest) h = inr (refl, ground (arith, h))
  reader-stuck (inserting item rest) h = absurd (ground (arith, h))
  reader-stuck closed h = inl refl

  presenter-stuck :
      (p : Presenter) (k : ℕ)
      → Counted s.qfilter k (fetches p)
      → presenter_step (record s { presenter = p }) ≡ none
      → (p ≡ finished) ⊎ ((p ≡ expecting) × (s.qfilter.has_items ≡ 0))
  unfolding presenter_step queue_get_wait
  presenter-stuck expecting k c h = inr (refl, ground (arith, h))
  presenter-stuck fetching k c h =
      let (item, q, got, split, c') = get_rest-some s.qfilter s.qfilter.list k c in
      absurd (ground (arith, h, got))
  presenter-stuck (printing x) k c h = absurd (ground (arith, h))
  presenter-stuck finished k c h = inl refl

module _ (strstr : ℕ → Bool) (goal : List ℕ) (s : Pipe) where
  -- With an empty queue behind it, a filter that cannot go on has ended or waits for the reader.
  filter-stuck :
      (f : Filter)
      → Inv strstr goal (record s { filter = f; presenter = expecting })
      → 0 < s.qfilter.size
      → s.qfilter.list ≡ []
      → filter_step strstr (record s { filter = f }) ≡ none
      → (f ≡ ended) ⊎ ((f ≡ waiting) × (s.qreader.has_items ≡ 0))
  unfolding filter_step queue_get_wait queue_put_wait
  filter-stuck waiting v b e k = inr (refl, ground (arith, k))
  filter-stuck removing v b e k =
      let (item, q, got, split, c) =
        get_rest-some s.qreader s.qreader.list (puts s.reader) v.reader_queue in
      absurd (ground (arith, k, got))
  filter-stuck (testing x) v b e k = absurd (ground (arith, k))
  filter-stuck (passing item) v b e k =
      let space = v.filter_queue.space in
      let none_left = ap (λ (xs : List (Option ℕ)). length xs) e in
      absurd (ground (arith, k, b, space, none_left))
  filter-stuck (appending item) v b e k = absurd (ground (arith, k))
  filter-stuck ended v b e k = inl refl

  -- With nothing in either queue the null item is still with the reader or the filter.
  reader-open :
      (r : Reader)
      → Inv strstr goal (record s { filter = waiting; reader = r; presenter = expecting })
      → s.qfilter.list ≡ []
      → s.qreader.list ≡ []
      → r ≢ closed
  reader-open r v e e' c = absurd (ground (arith, c, e, e', v.alive))

  filter-open :
      Inv strstr goal (record s { filter = ended; presenter = expecting }) → s.qfilter.list ≢ []
  filter-open v e = absurd (ground (arith, e, v.alive))

  -- In a state of the invariant, with room in the queues, a thread can go on until the presenter ends.
  stuck-finished :
      Inv strstr goal s
      → 0 < s.qreader.size
      → 0 < s.qfilter.size
      → reader_step s ≡ none
      → filter_step strstr s ≡ none
      → presenter_step s ≡ none
      → s.presenter ≡ finished
  stuck-finished v a b h k l =
      elim (presenter-stuck s s.presenter (appends s.filter) v.filter_queue l) [
        | inl done ↦ done
        | inr (p, idle) ↦
            let v1 : Inv strstr goal (record s { presenter = expecting }) =
              subst (λ x. Inv strstr goal (record s { presenter = x })) p v in
            let e = length-zero s.qfilter.list (omega (arith, v1.filter_queue.items, idle)) in
            elim (filter-stuck s.filter v1 b e k) [
              | inl f ↦
                  let v2 : Inv strstr goal (record s { filter = ended; presenter = expecting }) =
                    subst (λ x. Inv strstr goal (record s { filter = x; presenter = expecting })) f
                      v1 in
                  absurd (filter-open v2 e)
              | inr (f, empty) ↦
                  let v2 : Inv strstr goal (record s { filter = waiting; presenter = expecting }) =
                    subst (λ x. Inv strstr goal (record s { filter = x; presenter = expecting })) f
                      v1 in
                  let items = v2.reader_queue.items in
                  let e' = length-zero s.qreader.list (omega (arith, items, empty)) in
                  elim (reader-stuck s s.reader h) [
                    | inl c ↦ absurd (reader-open s.reader v2 e e' c)
                    | inr (m, full) ↦
                        let space = v2.reader_queue.space in
                        let len = ap (λ (xs : List (Option ℕ)). length xs) e' in
                        absurd (omega (arith, m, full, space, len, a))
                  ]
            ]
      ]

-- What is true at the end of a run in which no thread can go on.
stuck-matching :
    (strstr : ℕ → Bool) (file : Option (List ℕ)) (ts : List Turn) {s : Pipe}
    → run strstr ts (start file) ≡ some s
    → reader_step s ≡ none
    → filter_step strstr s ≡ none
    → presenter_step s ≡ none
    → (s.presenter ≡ finished)
      × (s.printed ≡ matching strstr (lines_of file))
      × (s.count ≡ length (matching strstr (lines_of file)))
      × (s.frees ≡ length (matching strstr (lines_of file)))
unfolding start queue_init
stuck-matching strstr file ts {s} h a b c =
    let goal = matching strstr (lines_of file) in
    let v = run-Inv strstr goal ts (start file) (start-Inv strstr file) h in
    let (m, n) = run-size strstr ts (start file) h in
    let over = stuck-finished strstr goal s v (omega (arith, m)) (omega (arith, n)) a b c in
    let total : s.printed ++ [] ≡ goal =
      subst (λ x. s.printed ++ presenter_out x (output strstr s) ≡ goal) over v.total in
    let all : s.printed ≡ goal = sym (append-nil s.printed) ∙ total in
    (
      over,
      all,
      v.counted ∙ ap (λ (xs : List ℕ). length xs) all,
      v.freed ∙ ap (λ (xs : List ℕ). length xs) all,
    )

-- Whatever the order of its turns, a run has at most eleven steps for each line of the file, and
-- thirteen; and in the state that it reaches either a thread can take another step, or the presenter has
-- ended, has printed the lines of the file that contain the word, in their order, and has counted and
-- freed as many. A file that cannot be opened counts as an empty one.
pub run-matching :
    (strstr : ℕ → Bool) (file : Option (List ℕ)) (ts : List Turn) {s : Pipe}
    → run strstr ts (start file) ≡ some s
    → (length ts ≤ 11 * length (lines_of file) + 13)
      × (((t : Turn) × (s' : Pipe) × (step strstr t s ≡ some s'))
          ⊎ ((s.presenter ≡ finished)
              × (s.printed ≡ matching strstr (lines_of file))
              × (s.count ≡ length (matching strstr (lines_of file)))
              × (s.frees ≡ length (matching strstr (lines_of file)))))
unfolding step
run-matching strstr file ts {s} h = (
  run-length strstr file ts h,
  elim (Option-cases (reader_step s)) [
    | inr (s', took) ↦ inl (reads, s', took)
    | inl a ↦ elim (Option-cases (filter_step strstr s)) [
      | inr (s', took) ↦ inl (filters, s', took)
      | inl b ↦ elim (Option-cases (presenter_step s)) [
        | inr (s', took) ↦ inl (presents, s', took)
        | inl c ↦ inr (stuck-matching strstr file ts h a b c)
      ]
    ]
  ],
)
