-- ===== src/EchoServer/Uv/Sound.antt =====
-- The callbacks keep the counts of the server in step with libuv's handles.
use so_1920v_li41n.Prelude.{
  ℕ, ◌+◌, ◌-◌, ◌<◌, ◌≡◌, ◌∙◌, sym, ap, Bool, true, false, ◌&&◌, ◌||◌, not, some, ◌∷◌, arith, ◌==◌,
  has, length, count, refl, Bool-cases, inl, inr, count_of_has, has_of_count, remove, count-remove,
  length-remove, has-count, count-has, remove-absent,
}
use so_1920v_li41n.EchoServer.Uv.{
  Server, Nread, received, nothing, failed, Callback, connection, stdin_read, read, written, closed,
  worked, callback, free, on_close, complete_work_cb, read_stdin_completion, read_completion,
  on_new_connection,
}
use so_1920v_li41n.EchoServer.Uv.Loop.{Loop, request, requests, reported, IsDocumented, turn}

-- The blocks are those of the open and the closing channels and of the requests of work.
pub record Inv (s : Server) (l : Loop) : Type 0 where
  pub blocks : (x : ℕ) → count x s.blocks ≡ count x l.opened + count x l.closing + count x l.works
  pub reading : l.reading ≡ l.opened
  pub clients : s.nclients ≡ length l.opened
  pub both : l.input_open ≡ l.server_open
  pub asked : s.to_destroy ≡ true → l.server_open ≡ true → 0 < s.nclients
  pub drained : l.server_open ≡ false → s.nclients ≡ 0

-- Whether standard input has been read.
abbrev pub is_stdin : Callback → Bool
is_stdin stdin_read = true
is_stdin _ = false

abbrev pub was_asked : Server → Loop → Bool
was_asked s l = s.to_destroy || not l.server_open

abbrev pub Goes : Callback → Server → Loop → Type 0
Goes c s l =
    (s' : Server) × (l' : Loop) × (turn c (s, l) ≡ some (s', l'))
    × (was_asked s' l' ≡ (is_stdin c || was_asked s l))
    × Inv s' l'

module _ (s : Server) (l : Loop) where
  pub stdin_read-Inv : Inv s l → IsDocumented stdin_read s l → Goes stdin_read s l
  unfolding IsDocumented turn callback read_stdin_completion requests request reported
  stdin_read-Inv v d = elim (Bool-cases (s.nclients == 0)) [
    | inl idle ↦ (
      s,
      record l { input_open = false; server_open = false },
      ground (arith, d, idle, v.both),
      ground arith,
      record {
        blocks = v.blocks;
        reading = v.reading;
        clients = v.clients;
        both = refl;
        asked = λ a b. absurd (ground (arith, b));
        drained = λ b. ground (arith, idle);
      },
    )
    | inr busy ↦ (
      record s { to_destroy = true },
      l,
      ground (arith, busy),
      ground arith,
      record {
        blocks = v.blocks;
        reading = v.reading;
        clients = v.clients;
        both = v.both;
        asked = λ a b. ground (arith, busy);
        drained = v.drained;
      },
    )
  ]

  pub closed-Inv : (a : ℕ) → Inv s l → IsDocumented (closed a) s l → Goes (closed a) s l
  unfolding IsDocumented turn callback on_close free requests reported
  closed-Inv a v d =
      let live : has a s.blocks ≡ true =
        count-has a s.blocks (omega (arith, v.blocks a, has-count a l.closing d)) in
      (
        record s { blocks = remove a s.blocks },
        record l { closing = remove a l.closing },
        ground (arith, live),
        refl,
        record {
          blocks = λ x.
              omega
                (arith, v.blocks x, count-remove x a s.blocks live, count-remove x a l.closing d);
          reading = v.reading;
          clients = v.clients;
          both = v.both;
          asked = v.asked;
          drained = v.drained;
        },
      )

  pub written-Inv : (a : ℕ) → Inv s l → Goes (written a) s l
  unfolding turn callback requests reported
  written-Inv a v = (
    s,
    record l { writing = remove a l.writing },
    refl,
    refl,
    record {
      blocks = v.blocks;
      reading = v.reading;
      clients = v.clients;
      both = v.both;
      asked = v.asked;
      drained = v.drained;
    },
  )

  pub worked-Inv : (a : ℕ) → Inv s l → IsDocumented (worked a) s l → Goes (worked a) s l
  unfolding IsDocumented turn callback complete_work_cb free requests reported
  worked-Inv a v d =
      let live : has a s.blocks ≡ true =
        count-has a s.blocks (omega (arith, v.blocks a, has-count a l.works d)) in
      (
        record s { blocks = remove a s.blocks },
        record l { works = remove a l.works },
        ground (arith, live),
        refl,
        record {
          blocks = λ x.
              omega (arith, v.blocks x, count-remove x a s.blocks live, count-remove x a l.works d);
          reading = v.reading;
          clients = v.clients;
          both = v.both;
          asked = v.asked;
          drained = v.drained;
        },
      )

  -- The state behind the close of a channel, with `static` open or not.
  close-Inv :
      (a : ℕ) (static : Bool)
      → Inv s l
      → has a l.opened ≡ true
      → (s.to_destroy ≡ true → static ≡ true → 0 < s.nclients - 1)
      → (static ≡ false → s.nclients - 1 ≡ 0)
      → Inv
          (record s { nclients = s.nclients - 1 })
          (record l {
            opened = remove a l.opened;
            reading = remove a l.reading;
            closing = a ∷ l.closing;
            input_open = static;
            server_open = static;
          })
  close-Inv a static v d asked drained = record {
    blocks = λ x. omega (arith, v.blocks x, count-remove x a l.opened d);
    reading = ap (remove a) v.reading;
    clients = omega (arith, v.clients, length-remove a l.opened d);
    both = refl;
    asked = asked;
    drained = drained;
  }

  pub read-Inv :
      (a : ℕ) (nread : Nread) → Inv s l → IsDocumented (read a nread) s l → Goes (read a nread) s l
  unfolding IsDocumented turn callback read_completion requests request reported
  read-Inv a (received n) v d =
      let live : has a l.opened ≡ true = rw (sym v.reading) d in
      let l' = record l { writing = a ∷ l.writing; reused = l.reused || has a l.writing } in
      (
        s,
        l',
        ground (arith, live),
        refl,
        record {
          blocks = v.blocks;
          reading = v.reading;
          clients = v.clients;
          both = v.both;
          asked = v.asked;
          drained = v.drained;
        },
      )
  read-Inv a nothing v d = (s, l, refl, refl, v)
  read-Inv a failed v d =
      let live : has a l.opened ≡ true = rw (sym v.reading) d in
      let several = has-count a l.opened live in
      let up : l.server_open ≡ true = elim (Bool-cases l.server_open) [
        | inl yes' ↦ yes'
        | inr over ↦
            absurd (omega (arith, v.drained over, v.clients, length-remove a l.opened live))
      ] in
      elim (Bool-cases (s.to_destroy && (s.nclients - 1 == 0))) [
        | inl last ↦ (
          record s { nclients = s.nclients - 1 },
          record l {
            opened = remove a l.opened;
            reading = remove a l.reading;
            closing = a ∷ l.closing;
            input_open = false;
            server_open = false;
          },
          ground (arith, live, last, up, v.both),
          ground (arith, last),
          close-Inv a false v live (λ x y. absurd (ground (arith, y))) (λ x. ground (arith, last)),
        )
        | inr more ↦ (
          record s { nclients = s.nclients - 1 },
          record l {
            opened = remove a l.opened;
            reading = remove a l.reading;
            closing = a ∷ l.closing;
            input_open = true;
            server_open = true;
          },
          ground (arith, live, more, up, v.both),
          ground (arith, up),
          close-Inv a true v live (λ x y. ground (arith, x, more))
              (λ x. absurd (ground (arith, x))),
        )
      ]

  pub connection-Inv :
      (ready : Bool) (client work : ℕ) (accepted : Bool)
      → Inv s l
      → IsDocumented (connection ready client work accepted) s l
      → Goes (connection ready client work accepted) s l
  unfolding IsDocumented turn callback on_new_connection requests request reported
  connection-Inv false client work accepted v d = (s, l, refl, refl, v)
  connection-Inv true client work true v (up, c, w, d, fresh, fresh') = (
    record s { nclients = s.nclients + 1; blocks = work ∷ client ∷ s.blocks },
    record l { opened = client ∷ l.opened; reading = client ∷ l.reading; works = work ∷ l.works },
    ground (arith, c, w),
    refl,
    record {
      blocks = λ x. omega (arith, v.blocks x);
      reading = ap (λ xs. client ∷ xs) v.reading;
      clients = omega (arith, v.clients);
      both = v.both;
      asked = λ x y. omega arith;
      drained = λ x. absurd (ground (arith, x, up));
    },
  )
  connection-Inv true client work false v (up, c, w, d, fresh, fresh') =
      let absent : has client l.opened ≡ false =
        has_of_count client l.opened
          (omega (arith, v.blocks client, count_of_has client s.blocks fresh)) in
      (
        record s { blocks = work ∷ client ∷ s.blocks },
        record l {
          closing = client ∷ l.closing;
          works = work ∷ l.works;
          reading = remove client l.reading;
        },
        ground (arith, c, w),
        refl,
        record {
          blocks = λ x. omega (arith, v.blocks x);
          reading = ap (remove client) v.reading ∙ remove-absent client l.opened absent;
          clients = v.clients;
          both = v.both;
          asked = v.asked;
          drained = v.drained;
        },
      )
