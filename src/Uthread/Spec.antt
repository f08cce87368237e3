-- ===== src/Uthread/Spec.antt =====
-- What the scheduler promises: the running thread, the queue of the threads that are ready, in the
-- order in which they will run, and the threads that wait for an activation.
use so_1920v_li41n.Prelude.{
  ◌+◌, ◌≡◌, refl, count, count-append, Option, none, some, List, [], ◌∷◌, ◌++◌, ◌==◌, if◌then◌else◌,
}
use so_1920v_li41n.Ring.{Addr}
use so_1920v_li41n.Uthread.{link_of}

-- `none` runs the main thread.
pub record Spec : Type 0 where
  pub running : Option Addr
  pub ready : List Addr
  pub blocked : List Addr

abbrev pub links_of : List Addr → List Addr
links_of [] = []
links_of (t ∷ ts) = link_of t ∷ links_of ts

abbrev pub active : Option Addr → List Addr
active none = []
active (some t) = t ∷ []

-- Every user thread that has not exited.
abbrev pub users : Spec → List Addr
users s = active s.running ++ s.ready ++ s.blocked

-- The front of the ready queue runs next, the main thread if there is none.
abbrev pub next : List Addr → Option Addr
next [] = none
next (t ∷ ts) = some t

abbrev pub rest : List Addr → List Addr
rest [] = []
rest (t ∷ ts) = ts

abbrev pub dispatch : List Addr → List Addr → Spec
dispatch ts blocked = record { running = next ts; ready = rest ts; blocked = blocked }

abbrev pub yield : Spec → Spec
yield s = dispatch (s.ready ++ active s.running) s.blocked

abbrev pub exit : Spec → Spec
exit s = dispatch s.ready s.blocked

abbrev pub deactivate : Spec → Spec
deactivate s = dispatch s.ready (s.blocked ++ active s.running)

abbrev pub remove : Addr → List Addr → List Addr
remove t [] = []
remove t (u ∷ us) = if t == u then us else u ∷ remove t us

abbrev pub activate : Addr → Spec → Spec
activate t s = record s { ready = s.ready ++ t ∷ []; blocked = remove t s.blocked }

abbrev pub create : Addr → Spec → Spec
create t s = record s { ready = s.ready ++ t ∷ [] }

pub links_of-append : (xs ys : List Addr) → links_of (xs ++ ys) ≡ links_of xs ++ links_of ys
links_of-append [] ys = refl
links_of-append (x ∷ xs) ys = rw (links_of-append xs ys)

pub count-links_of-append :
    (a : Addr) (xs ys : List Addr)
    → count a (links_of (xs ++ ys)) ≡ count a (links_of xs) + count a (links_of ys)
count-links_of-append a xs ys = rw (links_of-append xs ys, count-append)

-- No thread is lost or doubled by a dispatch.
pub users-dispatch : (ts bs : List Addr) → users (dispatch ts bs) ≡ ts ++ bs
users-dispatch [] bs = refl
users-dispatch (t ∷ ts) bs = refl

pub count-dispatch :
    (a : Addr) (ts bs : List Addr)
    → count a (links_of (users (dispatch ts bs))) ≡ count a (links_of ts) + count a (links_of bs)
count-dispatch a ts bs = rw (users-dispatch ts bs) (count-links_of-append a ts bs)
