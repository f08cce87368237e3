-- ===== src/EchoServer/Pooled.antt =====
-- aula-06-03/servers_tests/echo_service/echo_ipchannel/echo_srv.c: the echo server whose connections are
-- served by a thread pool. Connections are numbered in the order in which they are accepted; of each the
-- kernel keeps the messages that are still to read, up to the first read that gives no whole message,
-- and those written to it. The pool hands every item that it has to a thread, and tp_destroy waits until
-- it has none; the threads and main go on in any order.
mod Examples
pub mod Ends
pub mod Work
pub mod Served
use so_1920v_li41n.Prelude.{
  ℕ, ◌+◌, ◌-◌, Bool, true, false, ◌&&◌, Option, none, some, List, [], ◌∷◌, ◌++◌, ◌==◌, ltb, has,
  remove, is_nil, length, if◌then◌else◌, update,
}

-- Where main stands: in the loop of `run`, in tp_destroy, and at its end.
pub data Main : Type 0 where
  accepting : Main
  destroying : Main
  finished : Main

-- `queue` and `active` are the connections that wait in the pool, and those in a thread of it.
pub record Server : Type 0 where
  pub place : Main
  pub accepted : ℕ
  pub queue : List ℕ
  pub active : List ℕ
  pub closed : List ℕ
  pub unread : ℕ → List ℕ
  pub echoed : ℕ → List ℕ

-- The step of main, the start of a connection by a thread of the pool, and a round of the loop of
-- process_connection, or its end.
pub data Turn : Type 0 where
  main : Turn
  dispatches : Turn
  serves : (connection : ℕ) → Turn

-- What main comes to before `run`; `none` is its return of 1.
unfoldable pub main_start : (bound listening : Bool) (messages : ℕ → List ℕ) → Option Server
main_start bound listening messages =
    if bound && listening
    then some (record {
      place = accepting;
      accepted = 0;
      queue = [];
      active = [];
      closed = [];
      unread = messages;
      echoed = λ k. [];
    })
    else none

-- `connections` is how many connections `accept` gives before it fails, and `nthreads` the threads of
-- the pool.
module _ (connections nthreads : ℕ) where
  unfoldable pub run_step : Server → Option Server
  run_step s =
      if ltb s.accepted connections
      then some (record s { queue = s.queue ++ s.accepted ∷ []; accepted = s.accepted + 1 })
      else some (record s { place = destroying })

  unfoldable pub main_step : Server → Option Server
  main_step s = elim s.place [
    | accepting ↦ run_step s
    | destroying ↦
        if is_nil s.queue && is_nil s.active then some (record s { place = finished }) else none
    | finished ↦ none
  ]

  unfoldable pub dispatch_connection : Server → Option Server
  dispatch_connection s = elim s.queue [
    | [] ↦ none
    | cfd ∷ rest ↦
        if ltb (length s.active) nthreads
        then some (record s { queue = rest; active = cfd ∷ s.active })
        else none
  ]

  unfoldable pub process_connection : (cfd : ℕ) → Server → Option Server
  process_connection cfd s =
      if has cfd s.active
      then elim (s.unread cfd) [
        | [] ↦ some (record s { active = remove cfd s.active; closed = cfd ∷ s.closed })
        | msg ∷ rest ↦ some (record s {
          unread = update s.unread cfd rest;
          echoed = update s.echoed cfd (s.echoed cfd ++ msg ∷ []);
        })
      ]
      else none

  unfoldable pub step : Turn → Server → Option Server
  step main s = main_step s
  step dispatches s = dispatch_connection s
  step (serves cfd) s = process_connection cfd s

  unfoldable pub run : List Turn → Server → Option Server
  run [] s = some s
  run (t ∷ ts) s = elim (step t s) [ none ↦ none | some s' ↦ run ts s' ]
