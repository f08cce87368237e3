-- ===== src/EchoServer/Fifo.antt =====
-- echo_srv.c and echo_cli.c of aula-06-03/servers_tests/echo_service/echo_fifo_channel: any number of
-- clients that send their requests to one FIFO, and read the answers from a FIFO of their own, which
-- exists from create_fifo to unlink. A message is its sender and the number of the try. A step is a
-- write, a read or what stands between two; the processes go on in any order. Writes of a message to
-- a FIFO are whole, and the server's own FIFO is there before the clients.
mod Examples
pub mod Answers
pub mod Ends
pub mod Work
use so_1920v_li41n.Prelude.{
  ℕ, ◌+◌, ◌-◌, Bool, true, false, Option, none, some, List, [], ◌∷◌, ◌++◌, ◌==◌, ltb, if◌then◌else◌,
  update,
}

-- Where a client stands in main: before create_fifo, before the write and the read of a try, and behind
-- its unlink.
pub data Client : Type 0 where
  starting : Client
  writing : (try : ℕ) → Client
  reading : (try : ℕ) → Client
  ended : Client

-- What is in the FIFOs, and the answers that each client has read; `up` is whether the server is in the
-- loop of `run`.
pub record System : Type 0 where
  pub up : Bool
  pub requests : List (ℕ × ℕ)
  pub client : ℕ → Client
  pub responses : ℕ → List ℕ
  pub got : ℕ → List ℕ

unfoldable pub new_system : System
new_system = record {
  up = true;
  requests = [];
  client = λ k. starting;
  responses = λ k. [];
  got = λ k. [];
}

-- Whether `open` finds the FIFO of a client.
abbrev pub has_fifo : Client → Bool
has_fifo (writing try) = true
has_fifo (reading try) = true
has_fifo _ = false

unfoldable pub open_client_fifo : (client_id : ℕ) → System → Bool
open_client_fifo client_id s = has_fifo (s.client client_id)

-- A round of the loop of `run`; it ends where the client's FIFO cannot be opened.
unfoldable pub run_step : System → Option System
run_step s =
    if s.up
    then elim s.requests [
      | [] ↦ none
      | (sender, try) ∷ rest ↦
          let s = record s { requests = rest } in
          if open_client_fifo sender s
          then some
              (record s { responses = update s.responses sender (s.responses sender ++ try ∷ []) })
          else some (record s { up = false })
    ]
    else none

abbrev pub next_try : (niters try : ℕ) → Client
next_try niters try = if ltb try niters then writing (try + 1) else ended

-- The number of clients, and NITERS.
module _ (nclients niters : ℕ) where
  unfoldable pub client_step : (pid : ℕ) → System → Option System
  client_step pid s = elim (s.client pid) [
    | starting ↦ some (record s { client = update s.client pid (next_try niters 0) })
    | writing try ↦ some (record s {
      requests = s.requests ++ (pid, try) ∷ [];
      client = update s.client pid (reading try);
    })
    | reading try ↦ elim (s.responses pid) [
      | [] ↦ none
      | resp ∷ rest ↦ some (record s {
        responses = update s.responses pid rest;
        got = update s.got pid (s.got pid ++ resp ∷ []);
        client = update s.client pid (next_try niters try);
      })
    ]
    | ended ↦ none
  ]

  -- `none` is the server, and `some pid` a client.
  unfoldable pub step : Option ℕ → System → Option System
  step none s = run_step s
  step (some pid) s = if ltb pid nclients then client_step pid s else none

  unfoldable pub run : List (Option ℕ) → System → Option System
  run [] s = some s
  run (t ∷ ts) s = elim (step t s) [ none ↦ none | some s' ↦ run ts s' ]
