-- ===== src/EchoServer/EventLoop/Sound.antt =====
-- What every batch of events keeps, in the loop of the server on callbacks.
use so_1920v_li41n.Prelude.{
  ℕ, ◌+◌, ◌≡◌, ◌≢◌, ◌∙◌, refl, ==-eq-false, Bool, true, false, Option, none, some, List, [], ◌∷◌,
  arith, has, length, update, Distinct, Bool-cases, Option-cases, inl, inr, ltb,
}
use so_1920v_li41n.EchoServer.{open_fd}
use so_1920v_li41n.EchoServer.EventLoop.{
  Callback, on_new_connection, on_read_request, Loop, Event, without, add_client, rem_client,
  ap_regist_fd, ap_do_async, ap_read_async, ap_close, read_request, new_connection, call,
  handle_event, process,
}
use so_1920v_li41n.EchoServer.EventLoop.Entries.{
  fds, entry, Live, without-gone, without-Distinct, without-length, without-entry, Live-entry,
  Live-without, Live-free, Live-new, Live-callback,
}

-- Every descriptor is registered once, with a handle that is allocated and is its own, and
-- `nclients` counts them.
pub record Sound (s : Loop) : Type 0 where
  pub distinct : Distinct (fds s.interest)
  pub live : Live s.handle s.allocated s.interest
  pub counted : s.nclients ≡ length s.interest

-- The answers to an event are possible: `malloc` gives a block that is not in use, `accept` a
-- descriptor that is not registered, and a registered descriptor can be removed.
pub record Fits (e : Event) (s : Loop) : Type 0 where
  pub memory : e.answer.malloc ≢ 0
  pub fresh : s.allocated e.answer.malloc ≡ false
  pub new : (cfd : ℕ) → e.answer.accept ≡ some cfd → has cfd (fds s.interest) ≡ false
  pub removes :
      (s.handle e.ah).cb ≡ some on_read_request → e.answer.read ≡ none → e.answer.ctl ≡ true

-- The answers are possible when they are given.
abbrev pub AllFit : List Event → Loop → Type 0
AllFit [] s = Unit
AllFit (e ∷ events) s = Fits e s × ((s' : Loop) → handle_event e s ≡ some s' → AllFit events s')

-- The events are of the registered descriptors `fs`, each once.
abbrev pub Reported : List (ℕ × ℕ) → List Event → List ℕ → Type 0
Reported interest [] [] = Unit
Reported interest (e ∷ events) (f ∷ fs) =
    (entry f e.ah interest ≡ true) × (has f fs ≡ false) × Reported interest events fs
Reported interest _ _ = ⊥

-- Every entry but that of `f` is kept.
abbrev Keeps : ℕ → List (ℕ × ℕ) → List (ℕ × ℕ) → Type 0
Keeps f i j = (g a : ℕ) → g ≢ f → entry g a i ≡ true → entry g a j ≡ true

-- What an event comes to.
abbrev Handled : ℕ → Loop → Option Loop → Type 0
Handled f s r =
    (s' : Loop) × (r ≡ some s')
    × Sound s'
    × Keeps f s.interest s'.interest
    × (s'.files.closed ≡ s.files.closed)

-- The state with a new handle at `ah` for the new descriptor `cfd`.
abbrev with_handle : (cfd ah : ℕ) → Loop → Loop
with_handle cfd ah s = record s {
  handle = update s.handle ah (record { fd = cfd; cb = none });
  allocated = update s.allocated ah true;
  files = open_fd cfd s.files;
}

module _ (s : Loop) (sound : Sound s) (e : Event) (fits : Fits e s) (f : ℕ)
    (at : entry f e.ah s.interest ≡ true) where
  unchanged : Handled f s (some s)
  unchanged = (s, refl, sound, (λ g a ne h. h), refl)

  closed :
      (s.handle e.ah).fd ≡ f
      → e.answer.ctl ≡ true
      → Handled f s (some (ap_close e.ah e.answer.ctl s))
  unfolding ap_close rem_client
  closed own ok =
      rw (ok, own)
        (
          _,
          refl,
          record {
            distinct = without-Distinct f s.interest sound.distinct;
            live =
                Live-free s.handle s.allocated f e.ah (without f s.interest)
                  (Live-without s.handle s.allocated f s.interest sound.live) own
                  (without-gone f s.interest sound.distinct);
            counted = omega (arith, sound.counted, without-length f e.ah s.interest at);
          },
          (λ g a ne h. without-entry f g a s.interest ne h),
          refl,
        )

  read_request-Handled :
      (s.handle e.ah).cb ≡ some on_read_request → Handled f s (read_request e.ah e.answer s)
  unfolding read_request
  read_request-Handled cb = elim (Option-cases e.answer.read) [
    | inl ended ↦ rw ended (
        closed (Live-entry s.handle s.allocated f e.ah s.interest sound.live at).1
          (fits.removes cb ended))
    | inr (request, got) ↦ rw got (
      _,
      refl,
      record { distinct = sound.distinct; live = sound.live; counted = sound.counted },
      (λ g a ne h. h),
      refl,
    )
  ]

  -- The new handle of the descriptor `cfd`.
  registered :
      (cfd : ℕ) (ctl : Bool)
      → has cfd (fds s.interest) ≡ false
      → (s' : Loop) × (ap_regist_fd cfd e.answer.malloc ctl
            (record s { files = open_fd cfd s.files })
          ≡ some (e.answer.malloc, s'))
        × Sound s'
        × Keeps f s.interest s'.interest
        × (s'.files.closed ≡ s.files.closed)
        × (s'.allocated e.answer.malloc ≡ true)
  unfolding ap_regist_fd add_client
  registered cfd false new = (
    with_handle cfd e.answer.malloc s,
    rw (==-eq-false e.answer.malloc 0 fits.memory),
    record {
      distinct = sound.distinct;
      live =
          Live-new s.handle s.allocated e.answer.malloc (record { fd = cfd; cb = none }) s.interest
            sound.live fits.fresh;
      counted = sound.counted;
    },
    (λ g a ne h. h),
    refl,
    ground arith,
  )
  registered cfd true new = (
    record (with_handle cfd e.answer.malloc s) {
      interest = (cfd, e.answer.malloc) ∷ s.interest;
      nclients = s.nclients + 1;
    },
    rw (==-eq-false e.answer.malloc 0 fits.memory),
    record {
      distinct = (new, sound.distinct);
      live = (
        ground arith,
        ground arith,
        Live-new s.handle s.allocated e.answer.malloc (record { fd = cfd; cb = none }) s.interest
            sound.live fits.fresh,
      );
      counted = omega (arith, sound.counted);
    },
    (λ g a ne h. ground arith),
    refl,
    ground arith,
  )

  new_connection-Handled : Handled f s (new_connection e.ah e.answer s)
  unfolding new_connection ap_read_async ap_do_async
  new_connection-Handled = elim (Option-cases e.answer.accept) [
    | inl failed ↦ rw failed unchanged
    | inr (cfd, given) ↦ elim (Bool-cases (ltb 0 cfd)) [
      | inr zero_fd ↦
          rw (given, zero_fd)
            (
              _,
              refl,
              record { distinct = sound.distinct; live = sound.live; counted = sound.counted },
              (λ g a ne h. h),
              refl,
            )
      | inl positive ↦
          let (s', made, sound', keeps, same, used) =
            registered cfd e.answer.ctl (fits.new cfd given) in
          rw (given, positive, made, used)
            (
              _,
              refl,
              record {
                distinct = sound'.distinct;
                live =
                    Live-callback s'.handle s'.allocated e.answer.malloc (some on_read_request)
                      s'.interest sound'.live;
                counted = sound'.counted;
              },
              keeps,
              same,
            )
    ]
  ]

  call-Handled :
      (cb : Callback) → (s.handle e.ah).cb ≡ some cb → Handled f s (call cb e.ah e.answer s)
  call-Handled on_new_connection cb = new_connection-Handled
  call-Handled on_read_request cb = read_request-Handled cb

  handle_event-Handled : Handled f s (handle_event e s)
  unfolding handle_event
  handle_event-Handled = elim (Bool-cases e.ready) [
    | inr quiet ↦ rw quiet unchanged
    | inl ready ↦
        let live = (Live-entry s.handle s.allocated f e.ah s.interest sound.live at).0 in
        elim (Option-cases (s.handle e.ah).cb) [
          | inl no_callback ↦ rw (ready, live, no_callback) unchanged
          | inr (cb, set) ↦ rw (ready, live, set) (call-Handled cb set)
        ]
  ]

Reported-Keeps :
    (f : ℕ) (i j : List (ℕ × ℕ)) (events : List Event) (fs : List ℕ)
    → Keeps f i j
    → has f fs ≡ false
    → Reported i events fs
    → Reported j events fs
Reported-Keeps f i j [] [] k h r = tt
Reported-Keeps f i j [] (g ∷ gs) k h r = r
Reported-Keeps f i j (e ∷ es) [] k h r = r
Reported-Keeps f i j (e ∷ es) (g ∷ gs) k h r =
    (k g e.ah (ground arith) r.0, r.1, Reported-Keeps f i j es gs k (ground arith) r.2)

-- A batch of events of registered descriptors, each once, is processed with no access to a handle
-- that was freed, if the answers of the system are possible: the callbacks leave every descriptor
-- registered once, with an allocated handle of its own, and `nclients` counts them. No descriptor is
-- closed, though connections end.
pub process-Sound :
    (s : Loop) (events : List Event) (fs : List ℕ)
    → Sound s
    → Reported s.interest events fs
    → AllFit events s
    → (s' : Loop) × (process events s ≡ some s') × Sound s' × (s'.files.closed ≡ s.files.closed)
unfolding process
process-Sound s [] fs sound r fit = (s, refl, sound, refl)
process-Sound s (e ∷ events) [] sound r fit = absurd r
process-Sound s (e ∷ events) (f ∷ fs) sound r fit =
    let (s', handled, sound', keeps, same) = handle_event-Handled s sound e fit.0 f r.0 in
    let (s2, done, sound2, same2) =
      process-Sound s' events fs sound'
        (Reported-Keeps f s.interest s'.interest events fs keeps r.1 r.2) (fit.1 s' handled) in
    (s2, rw (handled, process) done, sound2, same2 ∙ same)
