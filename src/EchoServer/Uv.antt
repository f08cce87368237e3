-- ===== src/EchoServer/Uv.antt =====
-- aula-06-08/echo_libuv/echo_uv_srv.c: the callbacks of the echo server on libuv. A callback gives the
-- server's state behind it and the calls of libuv that it makes; what malloc, uv_accept and uv_listen
-- give are arguments. `none` is a use of a null pointer, or a free of a block that is not allocated.
-- Uv/Loop says what the documentation of libuv promises about those calls.
mod Examples
pub mod Loop
pub mod Runs
pub mod Sound
use so_1920v_li41n.Prelude.{
  ℕ, ◌+◌, ◌-◌, Bool, true, false, ◌&&◌, ◌||◌, Option, none, some, List, [], ◌∷◌, ◌++◌, ◌==◌, has,
  remove, if◌then◌else◌,
}

-- The static handles, and the channel_t of a client by its address.
pub data Handle : Type 0 where
  input : Handle
  server : Handle
  channel : (a : ℕ) → Handle

-- `init` is uv_tcp_init or uv_tty_init, and `close` is uv_close or uv_tcp_close_reset.
pub data Call : Type 0 where
  init : (h : Handle) → Call
  read_start : (h : Handle) → Call
  write : (h : Handle) (len : ℕ) → Call
  close : (h : Handle) → Call
  queue_work : (req : ℕ) → Call

-- The static variables, and the blocks that malloc has given and that are not freed.
pub record Server : Type 0 where
  pub nclients : ℕ
  pub to_destroy : Bool
  pub blocks : List ℕ

unfoldable pub free : ℕ → Server → Option (Server × List Call)
free a s = if has a s.blocks then some (record s { blocks = remove a s.blocks }, []) else none

unfoldable pub on_close : (handle : ℕ) → Server → Option (Server × List Call)
on_close handle s = free handle s

unfoldable pub complete_work_cb : (req : ℕ) → Server → Option (Server × List Call)
complete_work_cb req s = free req s

abbrev pub close_both : List Call
close_both = close input ∷ close server ∷ []

unfoldable pub read_stdin_completion : Server → Server × List Call
read_stdin_completion s =
    if s.nclients == 0 then (s, close_both) else (record s { to_destroy = true }, [])

-- `nread`, by its sign.
pub data Nread : Type 0 where
  received : (n : ℕ) → Nread
  nothing : Nread
  failed : Nread

-- The count is lowered on ℕ, where it stops at 0.
unfoldable pub read_completion : (client : ℕ) → Nread → Server → Server × List Call
read_completion client (received n) s = (s, write (channel client) n ∷ [])
read_completion client nothing s = (s, [])
read_completion client failed s =
    let s = record s { nclients = s.nclients - 1 } in
    (s, close (channel client) ∷ (if s.to_destroy && (s.nclients == 0) then close_both else []))

-- `ready` is whether status is not an error, `client` and `work` are the results of malloc, and
-- `accepted` is whether uv_accept gives 0.
unfoldable pub on_new_connection :
    (ready : Bool) (client work : ℕ) (accepted : Bool) → Server → Option (Server × List Call)
on_new_connection false client work accepted s = some (s, [])
on_new_connection true client work accepted s =
    if (client == 0) || (work == 0)
    then none
    else let s = record s { blocks = work ∷ client ∷ s.blocks } in
      let calls = init (channel client) ∷ queue_work work ∷ [] in
      some (
        if accepted
        then (record s { nclients = s.nclients + 1 }, calls ++ read_start (channel client) ∷ [])
        else (s, calls ++ close (channel client) ∷ []))

-- main up to uv_run, with the result of uv_listen; `none` is its return of 1.
unfoldable pub main_start : (r : ℕ) → Option (Server × List Call)
main_start r =
    if r == 0
    then some (
      record { nclients = 0; to_destroy = false; blocks = [] },
      init server ∷ init input ∷ read_start input ∷ [],
    )
    else none

-- The callbacks, with what libuv gives them.
pub data Callback : Type 0 where
  connection : (ready : Bool) (client work : ℕ) (accepted : Bool) → Callback
  stdin_read : Callback
  read : (client : ℕ) (nread : Nread) → Callback
  written : (client : ℕ) → Callback
  closed : (client : ℕ) → Callback
  static_closed : Callback
  worked : (req : ℕ) → Callback

-- write_completion and on_input_close_completion only print.
unfoldable pub callback : Callback → Server → Option (Server × List Call)
callback (connection ready client work accepted) s = on_new_connection ready client work accepted s
callback stdin_read s = some (read_stdin_completion s)
callback (read client nread) s = some (read_completion client nread s)
callback (written client) s = some (s, [])
callback (closed client) s = on_close client s
callback static_closed s = some (s, [])
callback (worked req) s = complete_work_cb req s
