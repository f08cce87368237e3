-- ===== src/EchoServer/Uv/Loop.antt =====
-- What the documentation of libuv promises to the server: which callbacks may come, and which calls are
-- a misuse. To start a read or to write on a handle that is not open, or to close one twice, is `none`.
-- A write with a request that is still under way is noted in `reused`, and the loop goes on.
use so_1920v_li41n.Prelude.{
  ℕ, ◌≡◌, ◌≢◌, Bool, true, false, ◌||◌, Option, none, some, List, [], ◌∷◌, has, remove,
  if◌then◌else◌,
}
use so_1920v_li41n.EchoServer.Uv.{
  input, server, channel, Call, init, read_start, write, close, queue_work, Server, Callback,
  connection, stdin_read, read, written, closed, static_closed, worked, callback, main_start,
}

-- The channels that are open, that are read and that are being closed, the requests of work that are
-- under way, the channels whose request of uv_write is under way, and the two static handles.
pub record Loop : Type 0 where
  pub opened : List ℕ
  pub reading : List ℕ
  pub closing : List ℕ
  pub works : List ℕ
  pub writing : List ℕ
  pub reused : Bool
  pub input_open : Bool
  pub server_open : Bool

abbrev pub new_loop : Loop
new_loop = record {
  opened = [];
  reading = [];
  closing = [];
  works = [];
  writing = [];
  reused = false;
  input_open = false;
  server_open = false;
}

unfoldable pub request : Call → Loop → Option Loop
request (init input) l = some (record l { input_open = true })
request (init server) l = some (record l { server_open = true })
request (init (channel a)) l = some (record l { opened = a ∷ l.opened })
request (read_start input) l = if l.input_open then some l else none
request (read_start server) l = none
request (read_start (channel a)) l =
    if has a l.opened then some (record l { reading = a ∷ l.reading }) else none
request (write (channel a) len) l =
    if has a l.opened
    then some (record l { writing = a ∷ l.writing; reused = l.reused || has a l.writing })
    else none
request (write h len) l = none
request (close input) l = if l.input_open then some (record l { input_open = false }) else none
request (close server) l = if l.server_open then some (record l { server_open = false }) else none
request (close (channel a)) l =
    if has a l.opened
    then some (record l {
      opened = remove a l.opened;
      reading = remove a l.reading;
      closing = a ∷ l.closing;
    })
    else none
request (queue_work req) l = some (record l { works = req ∷ l.works })

unfoldable pub requests : List Call → Loop → Option Loop
requests [] l = some l
requests (c ∷ cs) l = elim (request c l) [ none ↦ none | some l' ↦ requests cs l' ]

-- main up to uv_run, which is then to call the callbacks.
unfoldable pub uv_main : (r : ℕ) → Option (Server × Loop)
uv_main r = elim (main_start r) [
  | none ↦ none
  | some (s, calls) ↦ elim (requests calls new_loop) [ none ↦ none | some l ↦ some (s, l) ]
]

-- Each close, each request of work and each write is reported once.
unfoldable pub reported : Callback → Loop → Loop
reported (closed a) l = record l { closing = remove a l.closing }
reported (worked req) l = record l { works = remove req l.works }
reported (written a) l = record l { writing = remove a l.writing }
reported _ l = l

-- A callback comes only for a handle that is open, or for what was requested and not reported yet, and
-- malloc gives blocks that are not in use. Those of a write and of the close of a static handle change
-- nothing in the server, and may come at any time here.
unfoldable pub IsDocumented : Callback → Server → Loop → Type 0
IsDocumented (connection ready client work accepted) s l =
    (l.server_open ≡ true)
    × (client ≢ 0)
    × (work ≢ 0)
    × (client ≢ work)
    × (has client s.blocks ≡ false)
    × (has work s.blocks ≡ false)
IsDocumented stdin_read s l = l.input_open ≡ true
IsDocumented (read a nread) s l = has a l.reading ≡ true
IsDocumented (written a) s l = Unit
IsDocumented (closed a) s l = has a l.closing ≡ true
IsDocumented static_closed s l = Unit
IsDocumented (worked req) s l = has req l.works ≡ true

-- A callback, and the calls that it makes.
unfoldable pub turn : Callback → Server × Loop → Option (Server × Loop)
turn c (s, l) = elim (callback c s) [
  | none ↦ none
  | some (s', calls) ↦ elim (requests calls (reported c l)) [
    | none ↦ none
    | some l' ↦ some (s', l')
  ]
]

unfoldable pub turns : List Callback → Server × Loop → Option (Server × Loop)
turns [] w = some w
turns (c ∷ cs) w = elim (turn c w) [ none ↦ none | some w' ↦ turns cs w' ]

-- Each callback is one that may come where it comes.
unfoldable pub AllDocumented : List Callback → Server × Loop → Type 0
AllDocumented [] w = Unit
AllDocumented (c ∷ cs) w =
    IsDocumented c w.0 w.1 × ((w' : Server × Loop) → turn c w ≡ some w' → AllDocumented cs w')
