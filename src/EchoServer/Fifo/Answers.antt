-- ===== src/EchoServer/Fifo/Answers.antt =====
-- Each request has its answer.
use mathlib.Core.Path.{subst}
use so_1920v_li41n.Prelude.{
  ℕ, zero, suc, ◌+◌, ◌≤◌, ◌<◌, ◌≡◌, ◌∙◌, refl, sym, ap, true, List, [], ◌∷◌, ◌++◌, arith, ◌==◌, ltb,
  if◌then◌else◌, update, Bool-cases, inl, inr,
}
use so_1920v_li41n.EchoServer.Fifo.{
  Client, starting, writing, reading, ended, System, new_system, has_fifo, next_try,
}

-- The tries of a client in the server's FIFO.
abbrev pub sent : ℕ → List (ℕ × ℕ) → List ℕ
sent k [] = []
sent k ((sender, try) ∷ rest) = if k == sender then try ∷ sent k rest else sent k rest

-- 1, 2, ..., n
abbrev pub tries : ℕ → List ℕ
tries zero = []
tries (suc n) = tries n ++ suc n ∷ []

sent-append :
    (k sender try : ℕ) (xs : List (ℕ × ℕ))
    → sent k (xs ++ (sender, try) ∷ []) ≡ (if k == sender then sent k xs ++ try ∷ [] else sent k xs)
sent-append k sender try [] = ground arith
sent-append k sender try (x ∷ xs) = ground (arith, sent-append k sender try xs)

tries-next : (n : ℕ) → tries (n + 1) ≡ tries n ++ (n + 1) ∷ []
tries-next n = let e : n + 1 ≡ suc n = omega arith in rw e refl

append-empty : (xs ys : List ℕ) → xs ++ ys ≡ [] → (xs ≡ []) × (ys ≡ [])
append-empty [] ys h = (refl, h)
append-empty (x ∷ xs) ys h = absurd (ground (arith, h))

append-single :
    (xs : List ℕ) (r : ℕ) (rest : List ℕ) (t : ℕ)
    → xs ++ r ∷ rest ≡ t ∷ []
    → (xs ≡ []) × (r ≡ t) × (rest ≡ [])
append-single [] r rest t h = (refl, ground (arith, h), ground (arith, h))
append-single (x ∷ xs) r rest t h =
    let e : xs ++ r ∷ rest ≡ [] = ground (arith, h) in
    let (a, b) = append-empty xs (r ∷ rest) e in absurd (ground (arith, b))

module _ (niters : ℕ) where
  -- What a client has under way, and what it has read.
  abbrev pub Under : Client → (way got : List ℕ) → Type 0
  Under starting way got = (way ≡ []) × (got ≡ [])
  Under (writing try) way got =
      (way ≡ []) × ((n : ℕ) × (try ≡ n + 1) × (n < niters) × (got ≡ tries n))
  Under (reading try) way got =
      (way ≡ try ∷ []) × ((n : ℕ) × (try ≡ n + 1) × (n < niters) × (got ≡ tries n))
  Under ended way got = (way ≡ []) × (got ≡ tries niters)

  Under-same :
      {c c' : Client} {way way' got got' : List ℕ}
      → c ≡ c'
      → way ≡ way'
      → got ≡ got'
      → Under c way got
      → Under c' way' got'
  Under-same {c} {c'} {way} {way'} {got} {got'} p q r u =
      subst (λ x. Under x way' got') p
        (subst (λ x. Under c x got') q (subst (λ x. Under c way x) r u))

  pub record Inv (s : System) : Type 0 where
    pub up : s.up ≡ true
    pub under : (k : ℕ) → Under (s.client k) (sent k s.requests ++ s.responses k) (s.got k)

  pub new_system-Inv : Inv new_system
  unfolding new_system
  new_system-Inv = record { up = refl; under = λ k. (refl, refl) }

  Under-next :
      (n : ℕ) (got : List ℕ) → n ≤ niters → got ≡ tries n → Under (next_try niters n) [] got
  Under-next n got h e = elim (Bool-cases (ltb n niters)) [
    | inl more ↦ rw more (refl, (n, refl, ground (arith, more), e))
    | inr over ↦
        let last : n ≡ niters = ground (arith, over, h) in rw over (refl, e ∙ ap tries last)
  ]

  module _ (s : System) where
    abbrev pub way : ℕ → List ℕ
    way k = sent k s.requests ++ s.responses k

    pub at_client :
        (k pid : ℕ) {c : Client}
        → (k == pid) ≡ true
        → s.client pid ≡ c
        → Inv s
        → Under c (way k) (s.got k)
    at_client k pid same at v =
        let e : k ≡ pid = ground (arith, same) in
        subst (λ c. Under c (way k) (s.got k)) (ap s.client e ∙ at) (v.under k)

    pub start-Inv :
        (pid : ℕ)
        → s.client pid ≡ starting
        → Inv s
        → Inv (record s { client = update s.client pid (next_try niters 0) })
    start-Inv pid at v = record {
      up = v.up;
      under = λ k. elim (Bool-cases (k == pid)) [
        | inl same ↦
            let (none_way, none_got) = at_client k pid same at v in
            Under-same (ground (arith, same)) (sym none_way) refl
              (Under-next 0 (s.got k) (omega arith) none_got)
        | inr other ↦ Under-same (ground (arith, other)) refl refl (v.under k)
      ];
    }

    pub write-Inv :
        (pid try : ℕ)
        → s.client pid ≡ writing try
        → Inv s
        → Inv (record s {
          requests = s.requests ++ (pid, try) ∷ [];
          client = update s.client pid (reading try);
        })
    write-Inv pid try at v = record {
      up = v.up;
      under = λ k. elim (Bool-cases (k == pid)) [
        | inl same ↦
            let (none_way, done) = at_client k pid same at v in
            let (a, b) = append-empty (sent k s.requests) (s.responses k) none_way in
            let more : try ∷ [] ≡ sent k (s.requests ++ (pid, try) ∷ []) ++ s.responses k =
              ground (arith, same, sent-append k pid try s.requests, a, b) in
            Under-same {c = reading try} (ground (arith, same)) more refl (refl, done)
        | inr other ↦
            let kept : way k ≡ sent k (s.requests ++ (pid, try) ∷ []) ++ s.responses k =
              ground (arith, other, sent-append k pid try s.requests) in
            Under-same (ground (arith, other)) kept refl (v.under k)
      ];
    }

    pub read-Inv :
        (pid try resp : ℕ) (rest : List ℕ)
        → s.client pid ≡ reading try
        → s.responses pid ≡ resp ∷ rest
        → Inv s
        → Inv (record s {
          responses = update s.responses pid rest;
          got = update s.got pid (s.got pid ++ resp ∷ []);
          client = update s.client pid (next_try niters try);
        })
    read-Inv pid try resp rest at box v = record {
      up = v.up;
      under = λ k. elim (Bool-cases (k == pid)) [
        | inl same ↦
            let e : k ≡ pid = ground (arith, same) in
            let (one_way, (n, is_next, more, had)) = at_client k pid same at v in
            let (a, b, c) =
              append-single (sent k s.requests) resp rest try
                (sym (ap (λ xs. sent k s.requests ++ xs) (ap s.responses e ∙ box)) ∙ one_way) in
            let have : s.got pid ++ resp ∷ [] ≡ tries try =
              ap (λ xs. xs ++ resp ∷ []) (sym (ap s.got e) ∙ had)
              ∙ ap (λ x. tries n ++ x ∷ []) (b ∙ is_next)
              ∙ sym (tries-next n)
              ∙ sym (ap tries is_next) in
            let left : [] ≡ sent k s.requests ++ update s.responses pid rest k =
              ground (arith, same, a, c) in
            Under-same (ground (arith, same)) left (ground (arith, same))
              (Under-next try (s.got pid ++ resp ∷ []) (omega (arith, is_next, more)) have)
        | inr other ↦
            let kept : way k ≡ sent k s.requests ++ update s.responses pid rest k =
              ground (arith, other) in
            Under-same (ground (arith, other)) kept (ground (arith, other)) (v.under k)
      ];
    }

    answer-fifo :
        (c : Client) (try : ℕ) (way got : List ℕ) → Under c (try ∷ way) got → has_fifo c ≡ true
    answer-fifo starting try way got u = absurd (ground (arith, u.0))
    answer-fifo (writing t) try way got u = refl
    answer-fifo (reading t) try way got u = refl
    answer-fifo ended try way got u = absurd (ground (arith, u.0))

    -- A client whose request is answered waits for it.
    answer-Under :
        (c : Client) (try : ℕ) (xs ys got : List ℕ)
        → Under c (try ∷ (xs ++ ys)) got
        → Under c (xs ++ (ys ++ try ∷ [])) got
    answer-Under starting try xs ys got u = absurd (ground (arith, u.0))
    answer-Under (writing t) try xs ys got u = absurd (ground (arith, u.0))
    answer-Under (reading t) try xs ys got (one_way, done) =
        let rest : xs ++ ys ≡ [] = ground (arith, one_way) in
        let (a, b) = append-empty xs ys rest in (ground (arith, a, b, one_way), done)
    answer-Under ended try xs ys got u = absurd (ground (arith, u.0))

    pub answer-Inv :
        (sender try : ℕ) (rest : List (ℕ × ℕ))
        → s.requests ≡ (sender, try) ∷ rest
        → Inv s
        → (has_fifo (s.client sender) ≡ true)
          × Inv (record s {
            requests = rest;
            responses = update s.responses sender (s.responses sender ++ try ∷ []);
          })
    answer-Inv sender try rest at v =
        let whole = λ (k : ℕ).
          subst (λ xs. Under (s.client k) (sent k xs ++ s.responses k) (s.got k)) at (v.under k) in
        let mine : Under (s.client sender) (try ∷ (sent sender rest ++ s.responses sender))
            (s.got sender) =
          Under-same refl (ground arith) refl (whole sender) in
        (
          answer-fifo (s.client sender) try (sent sender rest ++ s.responses sender) (s.got sender)
              mine,
          record {
            up = v.up;
            under = λ k. elim (Bool-cases (k == sender)) [
              | inl same ↦
                  let e : sender ≡ k = ground (arith, same) in
                  subst
                    (λ x.
                      Under (s.client x)
                        (sent x rest
                          ++ update s.responses sender (s.responses sender ++ try ∷ []) x)
                        (s.got x))
                    e
                    (Under-same refl (ground arith) refl (
                      answer-Under (s.client sender) try (sent sender rest) (s.responses sender)
                        (s.got sender) mine))
              | inr other ↦ Under-same refl (ground (arith, other)) refl (whole k)
            ];
          },
        )
