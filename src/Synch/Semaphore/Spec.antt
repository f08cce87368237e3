-- ===== src/Synch/Semaphore/Spec.antt =====
-- What `sem_post` does with the waiters: it serves them from the front, up to the first whose request is
-- more than the units that are left, or until no unit is left.
use so_1920v_li41n.Prelude.{
  ℕ, ◌+◌, ◌-◌, ◌<◌, ◌≡◌, ◌⊎◌, refl, Bool, ◌&&◌, List, [], ◌∷◌, ◌++◌, arith, ltb, leb, if◌then◌else◌,
}
use so_1920v_li41n.Ring.{Addr}
use so_1920v_li41n.Synch.{WaitBlock}

pub record Served : Type 0 where
  pub units : ℕ
  pub woken : List Addr
  pub waiting : List Addr

-- The loop goes on and serves the block: some unit is left, and as many as it requests.
abbrev pub fits : (Addr → WaitBlock) → ℕ → Addr → Bool
fits block units b = ltb 0 units && leb (block b).units units

unfoldable pub serve : (Addr → WaitBlock) → ℕ → List Addr → Served
serve block units [] = record { units = units; woken = []; waiting = [] }
serve block units (b ∷ bs) =
    let others = serve block (units - (block b).units) bs in
    if fits block units b
    then record others { woken = b ∷ others.woken }
    else record { units = units; woken = []; waiting = b ∷ bs }

-- The units that the blocks request together.
abbrev pub requested : (Addr → WaitBlock) → List Addr → ℕ
requested block [] = 0
requested block (b ∷ bs) = (block b).units + requested block bs

-- Where there is a first waiter, no unit is left, or fewer than it requests.
abbrev pub IsSettled : (Addr → WaitBlock) → ℕ → List Addr → Type 0
IsSettled block units [] = Unit
IsSettled block units (b ∷ bs) = (units ≡ 0) ⊎ (units < (block b).units)

module _ (block : Addr → WaitBlock) where
  pub serve-append :
      (units : ℕ) (bs : List Addr)
      → (serve block units bs).woken ++ (serve block units bs).waiting ≡ bs
  unfolding serve
  serve-append units [] = refl
  serve-append units (b ∷ bs) = ground (arith, serve-append (units - (block b).units) bs)

  pub serve-requested :
      (units : ℕ) (bs : List Addr)
      → (serve block units bs).units + requested block (serve block units bs).woken ≡ units
  unfolding serve
  serve-requested units [] = omega arith
  serve-requested units (b ∷ bs) = ground (arith, serve-requested (units - (block b).units) bs)

  pub serve-IsSettled :
      (units : ℕ) (bs : List Addr)
      → IsSettled block (serve block units bs).units (serve block units bs).waiting
  unfolding serve
  serve-IsSettled units [] = tt
  serve-IsSettled units (b ∷ bs) = ground (arith, serve-IsSettled (units - (block b).units) bs)
