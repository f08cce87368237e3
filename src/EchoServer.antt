-- ===== src/EchoServer.antt =====
-- The echo servers that serve many sockets in one thread, of aula-06-03/servers_tests/echo_service,
-- aula-06-01 and aula-06-08: what they share. The results of the system calls are arguments of the operations.
pub mod Epoll
pub mod EventLoop
pub mod Fifo
pub mod FirstEpoll
pub mod FirstSelect
pub mod Poll
pub mod Pooled
pub mod Select
pub mod Uv
pub mod Table
use so_1920v_li41n.Prelude.{ℕ, Bool, Option, none, some, List, [], ◌∷◌, if◌then◌else◌}

-- What the operating system has seen: the descriptors that it gave and those that the server closed,
-- and the requests written back, the last first.
pub record Files : Type 0 where
  pub opened : List ℕ
  pub closed : List ℕ
  pub echoed : List (ℕ × ℕ)

abbrev pub open_fd : ℕ → Files → Files
open_fd fd f = record f { opened = fd ∷ f.opened }

abbrev pub close_fd : ℕ → Files → Files
close_fd fd f = record f { closed = fd ∷ f.closed }

-- `write(cfd, request, sizeof(echo_msg_t))`; a request is a number.
unfoldable pub process_request : ℕ → ℕ → Files → Files
process_request cfd request f = record f { echoed = (cfd, request) ∷ f.echoed }

-- What `create_bind_server_socket` returns: a descriptor, -1, or another negative number.
pub data Bound : Type 0 where
  bound : (sfd : ℕ) → Bound
  no_socket : Bound
  not_bound : Bound

-- `socket` is the descriptor that `socket` returns, if any, and `bind` tells whether the binding succeeds.
unfoldable pub create_bind_server_socket : Option ℕ → Bool → Files → Bound × Files
create_bind_server_socket none bind f = (no_socket, f)
create_bind_server_socket (some sfd) bind f =
    if bind then (bound sfd, open_fd sfd f) else (not_bound, close_fd sfd (open_fd sfd f))
