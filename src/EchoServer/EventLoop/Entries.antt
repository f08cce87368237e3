-- ===== src/EchoServer/EventLoop/Entries.antt =====
-- The entries of an epoll instance, and the handles that they name.
use so_1920v_li41n.Prelude.{
  ℕ, ◌+◌, ◌≡◌, ◌≢◌, refl, Bool, true, false, ◌&&◌, ◌||◌, Option, List, [], ◌∷◌, arith, has, ◌==◌,
  length, update, Distinct,
}
use so_1920v_li41n.EchoServer.EventLoop.{Callback, Handle, without}

abbrev pub fds : List (ℕ × ℕ) → List ℕ
fds [] = []
fds ((f, ah) ∷ rest) = f ∷ fds rest

-- The instance holds the descriptor `f` with the handle `a`.
abbrev pub entry : (f a : ℕ) → List (ℕ × ℕ) → Bool
entry f a [] = false
entry f a ((g, b) ∷ rest) = (f == g && a == b) || entry f a rest

-- Every entry names an allocated handle, which has the entry's descriptor.
abbrev pub Live : (ℕ → Handle) → (ℕ → Bool) → List (ℕ × ℕ) → Type 0
Live handle allocated [] = Unit
Live handle allocated ((f, a) ∷ rest) =
    (allocated a ≡ true) × ((handle a).fd ≡ f) × Live handle allocated rest

pub without-has :
    (f g : ℕ) (i : List (ℕ × ℕ)) → has g (fds i) ≡ false → has g (fds (without f i)) ≡ false
without-has f g [] h = refl
without-has f g ((k, b) ∷ rest) h = ground (arith, without-has f g rest)

pub without-gone : (f : ℕ) (i : List (ℕ × ℕ)) → Distinct (fds i) → has f (fds (without f i)) ≡ false
without-gone f [] d = refl
without-gone f ((k, b) ∷ rest) d = ground (arith, without-gone f rest d.1)

pub without-Distinct : (f : ℕ) (i : List (ℕ × ℕ)) → Distinct (fds i) → Distinct (fds (without f i))
without-Distinct f [] d = tt
without-Distinct f ((k, b) ∷ rest) d =
    ground (arith, without-has f k rest, without-Distinct f rest d.1)

pub without-length :
    (f a : ℕ) (i : List (ℕ × ℕ)) → entry f a i ≡ true → length (without f i) + 1 ≡ length i
without-length f a [] h = absurd (ground arith)
without-length f a ((k, b) ∷ rest) h = ground (arith, without-length f a rest)

pub without-entry :
    (f g a : ℕ) (i : List (ℕ × ℕ)) → g ≢ f → entry g a i ≡ true → entry g a (without f i) ≡ true
without-entry f g a [] ne h = h
without-entry f g a ((k, b) ∷ rest) ne h = ground (arith, without-entry f g a rest)

module _ (handle : ℕ → Handle) (allocated : ℕ → Bool) where
  pub Live-entry :
      (f a : ℕ) (i : List (ℕ × ℕ))
      → Live handle allocated i
      → entry f a i ≡ true
      → (allocated a ≡ true) × ((handle a).fd ≡ f)
  Live-entry f a [] l h = absurd (ground arith)
  Live-entry f a ((k, b) ∷ rest) l h = ground (arith, Live-entry f a rest l.2)

  pub Live-without :
      (f : ℕ) (i : List (ℕ × ℕ)) → Live handle allocated i → Live handle allocated (without f i)
  Live-without f [] l = tt
  Live-without f ((k, b) ∷ rest) l = ground (arith, Live-without f rest l.2)

  -- A handle that is freed is that of no entry for another descriptor.
  pub Live-free :
      (f a : ℕ) (i : List (ℕ × ℕ))
      → Live handle allocated i
      → (handle a).fd ≡ f
      → has f (fds i) ≡ false
      → Live handle (update allocated a false) i
  Live-free f a [] l e h = tt
  Live-free f a ((k, b) ∷ rest) l e h =
      (ground (arith, l.0, l.1), l.1, Live-free f a rest l.2 e (ground arith))

  -- A new handle is at an address of its own.
  pub Live-new :
      (a : ℕ) (new : Handle) (i : List (ℕ × ℕ))
      → Live handle allocated i
      → allocated a ≡ false
      → Live (update handle a new) (update allocated a true) i
  Live-new a new [] l free = tt
  Live-new a new ((k, b) ∷ rest) l free =
      (ground (arith, l.0), ground (arith, l.0, l.1), Live-new a new rest l.2 free)

  -- A callback does not change a handle's descriptor.
  pub Live-callback :
      (a : ℕ) (cb : Option Callback) (i : List (ℕ × ℕ))
      → Live handle allocated i
      → Live (update handle a (record (handle a) { cb = cb })) allocated i
  Live-callback a cb [] l = tt
  Live-callback a cb ((k, b) ∷ rest) l = (l.0, ground (arith, l.1), Live-callback a cb rest l.2)
