-- ===== src/EchoServer/EventLoop.antt =====
-- aula-06-03/servers_tests/echo_service/echo_ip_epoll_cb: loop.c, a loop that calls the callbacks of
-- its handles, and echo_srv.c, the echo server on it.
-- The results of the system calls and of `malloc` are in the answers that an event carries. `none` is
-- an access through a null pointer or to a handle that was freed.
pub mod Entries
mod Examples
pub mod Sound
pub mod Start
use so_1920v_li41n.Prelude.{
  ℕ, ◌+◌, ◌-◌, Bool, true, false, Option, none, some, List, [], ◌∷◌, ◌==◌, ltb, if◌then◌else◌,
  update,
}
use so_1920v_li41n.EchoServer.{Files, open_fd}

-- The functions of echo_srv.c that are registered as callbacks.
pub data Callback : Type 0 where
  on_new_connection : Callback
  on_read_request : Callback

-- `struct async_handle_impl`; every context is null.
pub record Handle : Type 0 where
  pub fd : ℕ
  pub cb : Option Callback

-- `interest` is what the epoll instance holds: the descriptors and, as their data, their handles.
pub record Loop : Type 0 where
  pub nclients : ℕ
  pub interest : List (ℕ × ℕ)
  pub handle : ℕ → Handle
  pub allocated : ℕ → Bool
  pub files : Files

-- What the calls of the system give: `accept` a descriptor and `read` a request, if any, `malloc` an
-- address, and `epoll_ctl` whether it succeeds.
pub record Answer : Type 0 where
  pub accept : Option ℕ
  pub read : Option ℕ
  pub malloc : ℕ
  pub ctl : Bool

-- The instance without the first entry for the descriptor.
abbrev pub without : ℕ → List (ℕ × ℕ) → List (ℕ × ℕ)
without fd [] = []
without fd ((f, ah) ∷ rest) = if f == fd then rest else (f, ah) ∷ without fd rest

unfoldable pub add_client : (cfd ah : ℕ) (ctl : Bool) → Loop → Loop
add_client cfd ah ctl s =
    if ctl then record s { interest = (cfd, ah) ∷ s.interest; nclients = s.nclients + 1 } else s

unfoldable pub rem_client : (cfd : ℕ) (ctl : Bool) → Loop → Loop
rem_client cfd ctl s =
    if ctl then record s { interest = without cfd s.interest; nclients = s.nclients - 1 } else s

-- The handle is the result of `malloc`, which the code does not test; nor does it test that of
-- `add_client`.
unfoldable pub ap_regist_fd : (fd : ℕ) (ah : ℕ) (ctl : Bool) → Loop → Option (ℕ × Loop)
ap_regist_fd fd ah ctl s =
    if ah == 0
    then none
    else some (
      ah,
      add_client fd ah ctl (record s {
        handle = update s.handle ah (record { fd = fd; cb = none });
        allocated = update s.allocated ah true;
      }),
    )

unfoldable pub ap_do_async : (ah : ℕ) → Callback → Loop → Option Loop
ap_do_async ah cb s =
    if s.allocated ah
    then some (record s { handle = update s.handle ah (record (s.handle ah) { cb = some cb }) })
    else none

unfoldable pub ap_accept_async : (ah : ℕ) → Callback → Loop → Option Loop
ap_accept_async ah cb s = ap_do_async ah cb s

unfoldable pub ap_read_async : (ah : ℕ) → Callback → Loop → Option Loop
ap_read_async ah cb s = ap_do_async ah cb s

unfoldable pub ap_close : (ah : ℕ) (ctl : Bool) → Loop → Loop
ap_close ah ctl s =
    let s = rem_client (s.handle ah).fd ctl s in
    record s { allocated = update s.allocated ah false }

abbrev pub echo_fd : (cfd request : ℕ) → Files → Files
echo_fd cfd request f = record f { echoed = (cfd, request) ∷ f.echoed }

unfoldable pub read_request : (ah : ℕ) → Answer → Loop → Option Loop
read_request ah answer s = elim answer.read [
  | none ↦ some (ap_close ah answer.ctl s)
  | some request ↦ some (record s { files = echo_fd (s.handle ah).fd request s.files })
]

unfoldable pub new_connection : (ah : ℕ) → Answer → Loop → Option Loop
new_connection ah answer s = elim answer.accept [
  | none ↦ some s
  | some cfd ↦
      let s = record s { files = open_fd cfd s.files } in
      if ltb 0 cfd
      then elim (ap_regist_fd cfd answer.malloc answer.ctl s) [
        | none ↦ none
        | some (client, s') ↦ ap_read_async client on_read_request s'
      ]
      else some s
]

abbrev pub call : Callback → (ah : ℕ) → Answer → Loop → Option Loop
call on_new_connection ah answer s = new_connection ah answer s
call on_read_request ah answer s = read_request ah answer s

-- An event that `epoll_wait` reports: its handle, whether it can be read or has failed, and the
-- answers to the calls that its callback makes.
pub record Event : Type 0 where
  pub ah : ℕ
  pub ready : Bool
  pub answer : Answer

-- A round of the loop of `process`.
unfoldable pub handle_event : Event → Loop → Option Loop
handle_event e s =
    if e.ready
    then (if s.allocated e.ah
        then elim (s.handle e.ah).cb [ none ↦ some s | some cb ↦ call cb e.ah e.answer s ]
        else none)
    else some s

pub process : List Event → Loop → Option Loop
process [] s = some s
process (e ∷ events) s = elim (handle_event e s) [ none ↦ none | some s' ↦ process events s' ]
