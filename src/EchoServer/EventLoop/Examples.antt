-- ===== src/EchoServer/EventLoop/Examples.antt =====
-- The loop with the listening descriptor 4 and the connection 6, both of which are ready: a
-- connection 8 is accepted, with a handle at 300, and the connection 6 has ended.
use so_1920v_li41n.Prelude.{
  ◌≡◌, refl, true, false, ◌&&◌, ◌||◌, not, none, some, [], ◌∷◌, arith, ◌==◌, if◌then◌else◌,
}
use so_1920v_li41n.EchoServer.EventLoop.{
  Loop, Event, on_new_connection, on_read_request, handle_event, new_connection, ap_regist_fd,
  ap_read_async, ap_do_async, add_client, process,
}
use so_1920v_li41n.EchoServer.EventLoop.Sound.{Sound, Fits, process-Sound}
use so_1920v_li41n.EchoServer.EventLoop.Start.{
  fault, enters_loop, given, main_start, main_start-faults,
}

abbrev busy : Loop
busy = record {
  nclients = 2;
  interest = (6, 200) ∷ (4, 100) ∷ [];
  handle = λ a.
      if a == 100
      then record { fd = 4; cb = some on_new_connection }
      else record { fd = 6; cb = some on_read_request };
  allocated = λ a. (a == 100) || (a == 200);
  files = record { opened = 6 ∷ 4 ∷ []; closed = []; echoed = [] };
}

busy-Sound : Sound busy
busy-Sound = record {
  distinct = (refl, (refl, tt));
  live = (refl, refl, (refl, refl, tt));
  counted = refl;
}

abbrev accepted : Event
accepted = record {
  ah = 100;
  ready = true;
  answer = record { accept = some 8; read = some 0; malloc = 300; ctl = true };
}

abbrev ended : Event
ended = record {
  ah = 200;
  ready = true;
  answer = record { accept = none; read = none; malloc = 400; ctl = true };
}

accepted-Fits : Fits accepted busy
accepted-Fits = record {
  memory = omega arith;
  fresh = refl;
  new = λ cfd e. ground arith;
  removes = λ cb e. refl;
}

ended-Fits : (s : Loop) → handle_event accepted busy ≡ some s → Fits ended s
unfolding handle_event new_connection ap_regist_fd ap_read_async ap_do_async add_client
ended-Fits s e = record {
  memory = omega arith;
  fresh = ground arith;
  new = λ cfd h. absurd (cc);
  removes = λ cb h. refl;
}

process-Sound_example :
    (s : Loop) × (process (accepted ∷ ended ∷ []) busy ≡ some s) × Sound s × (s.files.closed ≡ [])
process-Sound_example =
    process-Sound busy (accepted ∷ ended ∷ []) (4 ∷ 6 ∷ []) busy-Sound
      (refl, refl, (refl, refl, tt)) (accepted-Fits, λ s e. (ended-Fits s e, λ s' e'. tt))

main_start-faults_example :
    let started = main_start true (some 4) false true true 100 busy in
    if given (some 4) && false && true && not (100 == 0)
    then enters_loop started ≡ true
    else started ≡ fault
main_start-faults_example = main_start-faults (some 4) false true true 100 busy
