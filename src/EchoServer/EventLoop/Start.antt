-- ===== src/EchoServer/EventLoop/Start.antt =====
-- The start of the server of echo_ip_epoll_cb/echo_srv.c.
use so_1920v_li41n.Prelude.{
  ℕ, ◌≡◌, refl, Bool, true, false, ◌&&◌, not, Option, none, some, arith, ◌==◌, if◌then◌else◌, [],
}
use so_1920v_li41n.EchoServer.{bound, no_socket, not_bound, create_bind_server_socket}
use so_1920v_li41n.EchoServer.EventLoop.{
  Loop, on_new_connection, ap_regist_fd, ap_close, ap_accept_async, ap_do_async, add_client,
}

-- `epoll` tells whether `epoll_create` succeeds.
unfoldable pub ap_init : (epoll : Bool) → Loop → Option Loop
ap_init epoll s = if epoll then some (record s { nclients = 0; interest = [] }) else none

-- The listening handle, if any, behind the state; `none` is an access through a null pointer. A
-- socket that is not bound is a negative number: nothing registers it, and `listen` fails.
unfoldable pub server_init :
    (socket : Option ℕ) (bind listen ctl : Bool) (malloc : ℕ) → Loop → Option (Option ℕ × Loop)
server_init socket bind listen ctl malloc s =
    let (listenfd, files) = create_bind_server_socket socket bind s.files in
    let s = record s { files = files } in
    elim listenfd [
      | no_socket ↦ some (none, s)
      | not_bound ↦ if malloc == 0 then none else some (none, s)
      | bound sfd ↦ elim (ap_regist_fd sfd malloc ctl s) [
        | none ↦ none
        | some (ah, s') ↦ if listen then some (some ah, s') else some (none, ap_close ah ctl s')
      ]
    ]

-- `main` up to its loop: it ends with an error, goes on to the loop, or accesses a null pointer.
pub data Started : Type 0 where
  failed : Started
  loops : Loop → Started
  fault : Started

unfoldable pub main_start :
    (epoll : Bool) (socket : Option ℕ) (bind listen ctl : Bool) (malloc : ℕ) → Loop → Started
main_start epoll socket bind listen ctl malloc s = elim (ap_init epoll s) [
  | none ↦ failed
  | some s0 ↦ elim (server_init socket bind listen ctl malloc s0) [
    | none ↦ fault
    | some (listen_ah, s1) ↦ elim listen_ah [
      | none ↦ fault
      | some ah ↦ elim (ap_accept_async ah on_new_connection s1) [
        | none ↦ fault
        | some s2 ↦ loops s2
      ]
    ]
  ]
]

abbrev pub given : Option ℕ → Bool
given none = false
given (some x) = true

abbrev pub enters_loop : Started → Bool
enters_loop (loops s) = true
enters_loop _ = false

-- Where the epoll instance is made, `main` enters its loop if there is a socket, it is bound, the
-- system listens on it and there is memory for its handle, and in no other case; in those it does
-- not report an error, but writes through the null pointer that `server_init` or `malloc` returned.
pub main_start-faults :
    (socket : Option ℕ) (bind listen ctl : Bool) (malloc : ℕ) (s : Loop)
    → let started = main_start true socket bind listen ctl malloc s in
      if given socket && bind && listen && not (malloc == 0)
      then enters_loop started ≡ true
      else started ≡ fault
unfolding main_start ap_init server_init create_bind_server_socket ap_regist_fd ap_accept_async
    ap_do_async add_client
main_start-faults none bind listen ctl malloc s = refl
main_start-faults (some sfd) false listen ctl malloc s = ground arith
main_start-faults (some sfd) true false ctl malloc s = ground arith
main_start-faults (some sfd) true true true malloc s = ground arith
main_start-faults (some sfd) true true false malloc s = ground arith
