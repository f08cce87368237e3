-- ===== src/Pipeline/Steps.antt =====
-- The reader and the filter keep what flows through the pipeline.
use mathlib.Core.Path.{subst}
use so_1920v_li41n.Prelude.{
  ℕ, ◌≡◌, ◌∙◌, ap, sym, refl, Bool, Option, none, some, List, [], ◌∷◌, ◌++◌, append_assoc, arith,
  Bool-cases, Option-cases, inl, inr,
}
use so_1920v_li41n.Pipeline.{
  queue_put_wait, queue_put_rest, queue_get_wait, Reader, reading, putting, inserting, closed,
  Filter, waiting, removing, testing, passing, appending, ended, Pipe, reader_step, filter_step,
  after_put, after_get, after_pass,
}
use so_1920v_li41n.Pipeline.Stream.{
  Counted, Inv, output, reader_out, filter_out, pass_out, put_out, puts, gets, appends, fetches,
}
use so_1920v_li41n.Pipeline.Queues.{put_wait-some, get_wait-some, put_rest-Counted, get_rest-some}

module _ (strstr : ℕ → Bool) (goal : List ℕ) where
  -- A step that leaves what is to reach the presenter alone, and the presenter.
  kept :
      (s s' : Pipe)
      → Inv strstr goal s
      → output strstr s' ≡ output strstr s
      → s'.presenter ≡ s.presenter
      → s'.printed ≡ s.printed
      → s'.frees ≡ s.frees
      → s'.count ≡ s.count
      → Counted s'.qreader (puts s'.reader) (gets s'.filter)
      → Counted s'.qfilter (appends s'.filter) (fetches s'.presenter)
      → Inv strstr goal s'
  kept s s' v out p printed frees count reader_queue filter_queue = record {
    total = rw (out, p, printed) v.total;
    alive = rw (out, p) v.alive;
    reader_queue = reader_queue;
    filter_queue = filter_queue;
    freed = rw (frees, printed) v.freed;
    counted = rw (count, printed) v.counted;
  }

  -- The item that the reader has in hand goes to the end of its queue.
  put-input :
      (item : Option ℕ) (rest : List ℕ) (xs : List (Option ℕ))
      → (xs ++ item ∷ []) ++ reader_out (after_put item rest) ≡ xs ++ put_out item rest
  put-input none rest xs = append_assoc xs (none ∷ []) []
  put-input (some x) rest xs = append_assoc xs (some x ∷ []) (reader_out (reading rest))

  after_put-puts : (item : Option ℕ) (rest : List ℕ) → puts (after_put item rest) ≡ 0
  after_put-puts none rest = refl
  after_put-puts (some x) rest = refl

  pub reader_step-Inv :
      (s : Pipe) (r : Reader) {s' : Pipe}
      → Inv strstr goal (record s { reader = r })
      → reader_step (record s { reader = r }) ≡ some s'
      → Inv strstr goal s'
  unfolding reader_step queue_put_rest
  reader_step-Inv s (reading []) {s'} v h =
      let g : record s { reader = putting none [] } ≡ s' = ground (arith, h) in
      subst (Inv strstr goal) g (
        kept (record s { reader = reading [] }) (record s { reader = putting none [] }) v refl refl
          refl refl refl v.reader_queue v.filter_queue)
  reader_step-Inv s (reading (x ∷ xs)) {s'} v h =
      let g : record s { reader = putting (some x) xs } ≡ s' = ground (arith, h) in
      subst (Inv strstr goal) g (
        kept (record s { reader = reading (x ∷ xs) }) (record s { reader = putting (some x) xs }) v
          refl refl refl refl refl v.reader_queue v.filter_queue)
  reader_step-Inv s (putting item rest) {s'} v h = elim (Option-cases (queue_put_wait s.qreader)) [
    | inl waits ↦ absurd (ground (arith, h, waits))
    | inr (q, got) ↦
        let (same, c) = put_wait-some s.qreader (gets s.filter) v.reader_queue got in
        let s1 : Pipe = record s { qreader = q; reader = inserting item rest } in
        let g : s1 ≡ s' = ground (arith, h, got) in
        subst (Inv strstr goal) g (
          kept (record s { reader = putting item rest }) s1 v (rw same refl) refl refl refl refl c
            v.filter_queue)
  ]
  reader_step-Inv s (inserting item rest) {s'} v h =
      let s1 : Pipe = record s {
        qreader = queue_put_rest item s.qreader;
        reader = after_put item rest;
      } in
      let g : s1 ≡ s' = ground (arith, h) in
      subst (Inv strstr goal) g (
        kept (record s { reader = inserting item rest }) s1 v
          (ap (λ xs. s.qfilter.list ++ filter_out strstr s.filter xs)
            (put-input item rest s.qreader.list))
          refl refl refl refl
          (rw (after_put-puts item rest)
            (put_rest-Counted s.qreader item (gets s.filter) v.reader_queue))
          v.filter_queue)
  reader_step-Inv s closed v h = absurd (ground (arith, h))

  -- The item that the filter has taken is the next one that it reads, and one that it has in hand goes
  -- to the end of its queue.
  after_get-output :
      (item : Option ℕ) (xs : List (Option ℕ))
      → (filter_out strstr (after_get item) xs ≡ filter_out strstr waiting (item ∷ xs))
        × (gets (after_get item) ≡ 0)
        × (appends (after_get item) ≡ 0)
  after_get-output none xs = (refl, refl, refl)
  after_get-output (some x) xs = (refl, refl, refl)

  after_pass-output :
      (item : Option ℕ) (xs ys : List (Option ℕ))
      → ((xs ++ item ∷ []) ++ filter_out strstr (after_pass item) ys
          ≡ xs ++ pass_out strstr item ys)
        × (gets (after_pass item) ≡ 0)
        × (appends (after_pass item) ≡ 0)
  after_pass-output none xs ys = (append_assoc xs (none ∷ []) [], refl, refl)
  after_pass-output (some x) xs ys =
      (append_assoc xs (some x ∷ []) (filter_out strstr waiting ys), refl, refl)

  pub filter_step-Inv :
      (s : Pipe) (f : Filter) {s' : Pipe}
      → Inv strstr goal (record s { filter = f })
      → filter_step strstr (record s { filter = f }) ≡ some s'
      → Inv strstr goal s'
  unfolding filter_step queue_put_rest
  filter_step-Inv s waiting {s'} v h = elim (Option-cases (queue_get_wait s.qreader)) [
    | inl waits ↦ absurd (ground (arith, h, waits))
    | inr (q, got) ↦
        let (same, c) = get_wait-some s.qreader (puts s.reader) v.reader_queue got in
        let s1 : Pipe = record s { qreader = q; filter = removing } in
        let g : s1 ≡ s' = ground (arith, h, got) in
        subst (Inv strstr goal) g (
          kept (record s { filter = waiting }) s1 v (rw same refl) refl refl refl refl c
            v.filter_queue)
  ]
  filter_step-Inv s removing {s'} v h =
      let (item, q, got, split, c) =
        get_rest-some s.qreader s.qreader.list (puts s.reader) v.reader_queue in
      let (out, taken, added) = after_get-output item (q.list ++ reader_out s.reader) in
      let s1 : Pipe = record s { qreader = q; filter = after_get item } in
      let g : s1 ≡ s' = ground (arith, h, got) in
      subst (Inv strstr goal) g (
        kept (record s { filter = removing }) s1 v
          (ap (λ xs. s.qfilter.list ++ xs) out
            ∙ ap
                (λ (xs : List (Option ℕ)).
                  s.qfilter.list ++ filter_out strstr waiting (xs ++ reader_out s.reader))
                (sym split))
          refl refl refl refl (rw taken c) (rw added v.filter_queue))
  filter_step-Inv s (testing x) {s'} v h = elim (Bool-cases (strstr x)) [
    | inl match ↦
        let s1 : Pipe = record s { filter = passing (some x) } in
        let g : s1 ≡ s' = ground (arith, h, match) in
        subst (Inv strstr goal) g (
          kept (record s { filter = testing x }) s1 v (rw match refl) refl refl refl refl
            v.reader_queue v.filter_queue)
    | inr other ↦
        let s1 : Pipe = record s { filter = waiting } in
        let g : s1 ≡ s' = ground (arith, h, other) in
        subst (Inv strstr goal) g (
          kept (record s { filter = testing x }) s1 v (rw other refl) refl refl refl refl
            v.reader_queue v.filter_queue)
  ]
  filter_step-Inv s (passing item) {s'} v h = elim (Option-cases (queue_put_wait s.qfilter)) [
    | inl waits ↦ absurd (ground (arith, h, waits))
    | inr (q, got) ↦
        let (same, c) = put_wait-some s.qfilter (fetches s.presenter) v.filter_queue got in
        let s1 : Pipe = record s { qfilter = q; filter = appending item } in
        let g : s1 ≡ s' = ground (arith, h, got) in
        subst (Inv strstr goal) g (
          kept (record s { filter = passing item }) s1 v (rw same refl) refl refl refl refl
            v.reader_queue c)
  ]
  filter_step-Inv s (appending item) {s'} v h =
      let s1 : Pipe = record s {
        qfilter = queue_put_rest item s.qfilter;
        filter = after_pass item;
      } in
      let (out, taken, added) =
        after_pass-output item s.qfilter.list (s.qreader.list ++ reader_out s.reader) in
      let g : s1 ≡ s' = ground (arith, h) in
      subst (Inv strstr goal) g (
        kept (record s { filter = appending item }) s1 v out refl refl refl refl
          (rw taken v.reader_queue)
          (rw added (put_rest-Counted s.qfilter item (fetches s.presenter) v.filter_queue)))
  filter_step-Inv s ended v h = absurd (ground (arith, h))
