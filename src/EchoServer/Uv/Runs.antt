-- ===== src/EchoServer/Uv/Runs.antt =====
-- What every sequence of callbacks that libuv may make leaves.
use mathlib.Core.Path.{subst}
use so_1920v_li41n.Prelude.{
  ℕ, ◌+◌, ◌≡◌, ◌∙◌, ap, Bool, true, false, not, ◌||◌, some, List, [], ◌∷◌, arith, length, count,
  has, remove, sym, Option-cases, inl, inr, refl,
}
use so_1920v_li41n.EchoServer.Uv.{
  Server, received, nothing, failed, on_new_connection, read_stdin_completion, read_completion,
  on_close, complete_work_cb, free, Callback, connection, stdin_read, read, written, closed,
  static_closed, worked, callback, main_start,
}
use so_1920v_li41n.EchoServer.Uv.Loop.{
  Loop, new_loop, request, requests, reported, IsDocumented, turn, turns, AllDocumented, uv_main,
}
use so_1920v_li41n.EchoServer.Uv.Sound.{
  Inv, Goes, is_stdin, was_asked, stdin_read-Inv, closed-Inv, written-Inv, worked-Inv, read-Inv,
  connection-Inv,
}

turn-Inv : (c : Callback) (s : Server) (l : Loop) → Inv s l → IsDocumented c s l → Goes c s l
unfolding turn callback requests reported
turn-Inv (connection ready client work accepted) s l v d =
    connection-Inv s l ready client work accepted v d
turn-Inv stdin_read s l v d = stdin_read-Inv s l v d
turn-Inv (read a nread) s l v d = read-Inv s l a nread v d
turn-Inv (written a) s l v d = written-Inv s l a v
turn-Inv (closed a) s l v d = closed-Inv s l a v d
turn-Inv static_closed s l v d = (s, l, refl, refl, v)
turn-Inv (worked req) s l v d = worked-Inv s l req v d

-- Whether one of the callbacks is that of the standard input.
abbrev pub has_stdin : List Callback → Bool
has_stdin [] = false
has_stdin (c ∷ cs) = is_stdin c || has_stdin cs

or-swap : (a b c : Bool) → (a || (b || c)) ≡ ((b || a) || c)
or-swap true true c = refl
or-swap true false c = refl
or-swap false true c = refl
or-swap false false c = refl

run_turns-Inv :
    (cs : List Callback) (s : Server) (l : Loop)
    → Inv s l
    → AllDocumented cs (s, l)
    → (s' : Server) × (l' : Loop) × (turns cs (s, l) ≡ some (s', l'))
      × (was_asked s' l' ≡ (has_stdin cs || was_asked s l))
      × Inv s' l'
unfolding turns AllDocumented
run_turns-Inv [] s l v d = (s, l, refl, refl, v)
run_turns-Inv (c ∷ cs) s l v (d, ds) =
    let (s1, l1, went, asked, v1) = turn-Inv c s l v d in
    let (s2, l2, runs, asked', v2) = run_turns-Inv cs s1 l1 v1 (ds (s1, l1) went) in
    (
      s2,
      l2,
      rw (turns, went) runs,
      asked'
          ∙ ap (λ b. has_stdin cs || b) asked
          ∙ or-swap (has_stdin cs) (is_stdin c) (was_asked s l),
      v2,
    )

uv_main-Inv : {s : Server} {l : Loop} → uv_main 0 ≡ some (s, l) → Inv s l × (was_asked s l ≡ false)
unfolding uv_main main_start requests request
uv_main-Inv {s} {l} h =
    let s0 : Server = record { nclients = 0; to_destroy = false; blocks = [] } in
    let l0 = record new_loop { input_open = true; server_open = true } in
    let gs : s0 ≡ s = ground (arith, h) in
    let gl : l0 ≡ l = ground (arith, h) in
    let v : Inv s0 l0 = record {
      blocks = λ x. refl;
      reading = refl;
      clients = refl;
      both = refl;
      asked = λ a b. absurd (ground (arith, a));
      drained = λ b. absurd (ground (arith, b));
    } in
    subst (λ x. Inv x l × (was_asked x l ≡ false)) gs
      (subst (λ x. Inv s0 x × (was_asked s0 x ≡ false)) gl (v, refl))

-- The channels whose write is under way behind a callback.
abbrev writing_after : Callback → List ℕ → List ℕ
writing_after (read a (received n)) ws = a ∷ ws
writing_after (written a) ws = remove a ws
writing_after _ ws = ws

-- Whether a callback brings data of a channel whose write is under way.
abbrev overlaps : Callback → List ℕ → Bool
overlaps (read a (received n)) ws = has a ws
overlaps _ ws = false

-- Whether data of a channel comes before its last write has been reported, with the writes `ws` under
-- way before the callbacks.
abbrev pub any_overlap : List Callback → List ℕ → Bool
any_overlap [] ws = false
any_overlap (c ∷ cs) ws = overlaps c ws || any_overlap cs (writing_after c ws)

abbrev Writes : Callback → Loop → Loop → Type 0
Writes c l l' =
    (l'.writing ≡ writing_after c l.writing) × (l'.reused ≡ (l.reused || overlaps c l.writing))

or-none : (a : Bool) → a ≡ (a || false)
or-none true = refl
or-none false = refl

or-or : (a b c : Bool) → ((a || b) || c) ≡ (a || (b || c))
or-or true b c = refl
or-or false b c = refl

turn-Writes :
    (c : Callback) (s : Server) (l : Loop) {s' : Server} {l' : Loop}
    → turn c (s, l) ≡ some (s', l')
    → Writes c l l'
unfolding turn callback requests request reported on_new_connection read_stdin_completion
    read_completion on_close complete_work_cb free
turn-Writes (connection false client work accepted) s l h = ground (arith, h, or-none l.reused)
turn-Writes (connection true client work true) s l h = ground (arith, h, or-none l.reused)
turn-Writes (connection true client work false) s l h = ground (arith, h, or-none l.reused)
turn-Writes stdin_read s l h = ground (arith, h, or-none l.reused)
turn-Writes (read a (received n)) s l h = ground (arith, h)
turn-Writes (read a nothing) s l h = ground (arith, h, or-none l.reused)
turn-Writes (read a failed) s l h = ground (arith, h, or-none l.reused)
turn-Writes (written a) s l h = ground (arith, h, or-none l.reused)
turn-Writes (closed a) s l h = ground (arith, h, or-none l.reused)
turn-Writes static_closed s l h = ground (arith, h, or-none l.reused)
turn-Writes (worked req) s l h = ground (arith, h, or-none l.reused)

turns-reused :
    (cs : List Callback) (s : Server) (l : Loop) {s' : Server} {l' : Loop}
    → turns cs (s, l) ≡ some (s', l')
    → l'.reused ≡ (l.reused || any_overlap cs l.writing)
unfolding turns
turns-reused [] s l {s'} {l'} h =
    let g : l ≡ l' = ground (arith, h) in ap (λ x. x.reused) (sym g) ∙ or-none l.reused
turns-reused (c ∷ cs) s l {s'} {l'} h = elim (Option-cases (turn c (s, l))) [
  | inl stuck ↦ absurd (ground (arith, h, stuck))
  | inr ((s1, l1), went) ↦
      let (writing, reused) = turn-Writes c s l {s' = s1} {l' = l1} went in
      turns-reused cs s1 l1 {s' = s'} {l' = l'} (rw (turns, went) at h)
      ∙ rw (writing, reused)
          (or-or l.reused (overlaps c l.writing) (any_overlap cs (writing_after c l.writing)))
]

-- On callbacks that may come, no handle is read or written that is not open, none is closed twice, no
-- block is freed twice, and nclients is the number of channels that are open, which are those that are
-- read. A request of uv_write is used again while it is under way just when a channel's data comes before
-- its last write has been reported.
pub turns-Inv :
    (cs : List Callback) {s : Server} {l : Loop}
    → uv_main 0 ≡ some (s, l)
    → AllDocumented cs (s, l)
    → (s' : Server) × (l' : Loop) × (turns cs (s, l) ≡ some (s', l'))
      × Inv s' l'
      × (l'.reused ≡ any_overlap cs [])
unfolding uv_main main_start requests request
turns-Inv cs {s} {l} h d =
    let (v, a) = uv_main-Inv h in
    let (s', l', runs, asked, v') = run_turns-Inv cs s l v d in
    let l0 = record new_loop { input_open = true; server_open = true } in
    let g : l0 ≡ l = ground (arith, h) in
    let begun : (l.reused || any_overlap cs l.writing) ≡ any_overlap cs [] =
      subst (λ (x : Loop). (x.reused || any_overlap cs x.writing) ≡ any_overlap cs []) g refl in
    (s', l', runs, v', turns-reused cs s l {s' = s'} {l' = l'} runs ∙ begun)

-- When no channel is open, the server socket and the input are open if the standard input has not been
-- read, and closed if it has, and the blocks that are left are those whose close or whose request of
-- work has not been reported yet.
pub turns-ends :
    (cs : List Callback) {s : Server} {l : Loop} {s' : Server} {l' : Loop}
    → uv_main 0 ≡ some (s, l)
    → AllDocumented cs (s, l)
    → turns cs (s, l) ≡ some (s', l')
    → l'.opened ≡ []
    → (l'.server_open ≡ not (has_stdin cs))
      × (l'.input_open ≡ not (has_stdin cs))
      × ((x : ℕ) → count x s'.blocks ≡ count x l'.closing + count x l'.works)
turns-ends cs {s} {l} {s'} {l'} h d runs none_open =
    let (v, before) = uv_main-Inv h in
    let (s1, l1, runs1, asked, v1) = run_turns-Inv cs s l v d in
    let gs : s1 ≡ s' = ground (arith, runs, runs1) in
    let gl : l1 ≡ l' = ground (arith, runs, runs1) in
    let v' : Inv s' l' = subst (λ x. Inv x l') gs (subst (Inv s1) gl v1) in
    let asked' : was_asked s' l' ≡ (has_stdin cs || was_asked s l) =
      subst (λ x. was_asked x l' ≡ (has_stdin cs || was_asked s l)) gs
        (subst (λ x. was_asked s1 x ≡ (has_stdin cs || was_asked s l)) gl asked) in
    let none_left : s'.nclients ≡ 0 = v'.clients ∙ ap (λ (xs : List ℕ). length xs) none_open in
    let server : l'.server_open ≡ not (has_stdin cs) =
      ground (arith, asked', before, none_left, v'.asked) in
    (server, v'.both ∙ server, λ x. ground (arith, v'.blocks x, none_open))
