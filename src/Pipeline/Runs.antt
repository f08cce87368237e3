-- ===== src/Pipeline/Runs.antt =====
-- The presenter, and so every run, keeps what flows through the pipeline.
use mathlib.Core.Path.{subst}
use so_1920v_li41n.Prelude.{
  ℕ, ◌+◌, ◌≡◌, ◌∙◌, ap, sym, refl, Bool, true, Option, none, some, List, [], ◌∷◌, ◌++◌,
  append_assoc, arith, length-append, Option-cases, inl, inr,
}
use so_1920v_li41n.Pipeline.{
  queue_get_wait, Presenter, expecting, fetching, printing, finished, Pipe, presenter_step,
  after_fetch, Turn, reads, filters, presents, step, run,
}
use so_1920v_li41n.Pipeline.Stream.{
  Inv, input, output, filter_out, presenter_out, awaits, appends, fetches,
}
use so_1920v_li41n.Pipeline.Queues.{get_wait-some, get_rest-some}
use so_1920v_li41n.Pipeline.Steps.{reader_step-Inv, filter_step-Inv}

module _ (strstr : ℕ → Bool) (goal : List ℕ) where
  -- The item that the presenter has taken is the next one that it shows.
  after_fetch-out :
      (item : Option ℕ) (xs : List (Option ℕ))
      → (presenter_out (after_fetch item) xs ≡ presenter_out expecting (item ∷ xs))
        × (awaits expecting (item ∷ xs) ≡ true → awaits (after_fetch item) xs ≡ true)
        × (fetches (after_fetch item) ≡ 0)
  after_fetch-out none xs = (refl, λ h. refl, refl)
  after_fetch-out (some x) xs = (refl, λ h. h, refl)

  presenter_step-Inv :
      (s : Pipe) (p : Presenter) {s' : Pipe}
      → Inv strstr goal (record s { presenter = p })
      → presenter_step (record s { presenter = p }) ≡ some s'
      → Inv strstr goal s'
  unfolding presenter_step
  presenter_step-Inv s expecting {s'} v h = elim (Option-cases (queue_get_wait s.qfilter)) [
    | inl waits ↦ absurd (ground (arith, h, waits))
    | inr (q, got) ↦
        let (same, c) = get_wait-some s.qfilter (appends s.filter) v.filter_queue got in
        let s1 : Pipe = record s { qfilter = q; presenter = fetching } in
        let g : s1 ≡ s' = ground (arith, h, got) in
        subst (Inv strstr goal) g (record {
          total = rw same v.total;
          alive = rw same v.alive;
          reader_queue = v.reader_queue;
          filter_queue = c;
          freed = v.freed;
          counted = v.counted;
        })
  ]
  presenter_step-Inv s fetching {s'} v h =
      let (item, q, got, split, c) =
        get_rest-some s.qfilter s.qfilter.list (appends s.filter) v.filter_queue in
      let rest = q.list ++ filter_out strstr s.filter (input strstr s) in
      let (out, alive, taken) = after_fetch-out item rest in
      let s1 : Pipe = record s { qfilter = q; presenter = after_fetch item } in
      let g : s1 ≡ s' = ground (arith, h, got) in
      let tail = filter_out strstr s.filter (input strstr s) in
      subst (Inv strstr goal) g (record {
        total =
            ap (λ xs. s.printed ++ xs) out
            ∙ ap (λ (xs : List (Option ℕ)). s.printed ++ presenter_out expecting (xs ++ tail))
                (sym split)
            ∙ v.total;
        alive =
            alive (
              subst (λ (xs : List (Option ℕ)). awaits expecting (xs ++ tail) ≡ true) split v.alive);
        reader_queue = v.reader_queue;
        filter_queue = rw taken c;
        freed = v.freed;
        counted = v.counted;
      })
  presenter_step-Inv s (printing x) {s'} v h =
      let s1 : Pipe = record s {
        presenter = expecting;
        printed = s.printed ++ x ∷ [];
        frees = s.frees + 1;
        count = s.count + 1;
      } in
      let g : s1 ≡ s' = ground (arith, h) in
      subst (Inv strstr goal) g (record {
        total =
            append_assoc s.printed (x ∷ []) (presenter_out expecting (output strstr s)) ∙ v.total;
        alive = v.alive;
        reader_queue = v.reader_queue;
        filter_queue = v.filter_queue;
        freed = omega (arith, v.freed, length-append s.printed (x ∷ []));
        counted = omega (arith, v.counted, length-append s.printed (x ∷ []));
      })
  presenter_step-Inv s finished v h = absurd (ground (arith, h))

  step-Inv :
      (t : Turn) (s : Pipe) {s' : Pipe}
      → Inv strstr goal s
      → step strstr t s ≡ some s'
      → Inv strstr goal s'
  unfolding step
  step-Inv reads s v h = reader_step-Inv strstr goal s s.reader v h
  step-Inv filters s v h = filter_step-Inv strstr goal s s.filter v h
  step-Inv presents s v h = presenter_step-Inv s s.presenter v h

  pub run-Inv :
      (ts : List Turn) (s : Pipe) {s' : Pipe}
      → Inv strstr goal s
      → run strstr ts s ≡ some s'
      → Inv strstr goal s'
  unfolding run
  run-Inv [] s {s'} v h = let g : s ≡ s' = ground (arith, h) in subst (Inv strstr goal) g v
  run-Inv (t ∷ ts) s v h = elim (Option-cases (step strstr t s)) [
    | inl stuck ↦ absurd (ground (arith, h, stuck))
    | inr (s1, took) ↦ run-Inv ts s1 (step-Inv t s v took) (rw (run, took) at h)
  ]
