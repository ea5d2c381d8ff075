-- ===== src/Tests/WebSocket.antt =====
-- A client that connects, asks for write access, cannot be reached and is removed.
use puddle.Base.{◌≡◌, refl, true, false, none, some, List, [], ◌∷◌, arith}
use puddle.Base.Exec.{ok}
use puddle.Messages.{request_write_access, saved_set_list}
use puddle.WebSocket.{
  PollEvent, server, waker, client, done, interrupted, text, binary, would_block, connection_closed,
  run_event_loop, new_server, find_client, insert_client, remove_client,
}
use puddle.WebSocket.Lifecycle.{IsOrderly, IsSound}
use puddle.WebSocket.Lifecycle.Runs.{run_event_loop-IsOrderly, run_event_loop-IsSound}

abbrev poll_events : List PollEvent
poll_events =
    server
      (record { is_registered = true; handshake = done }
        ∷ record { is_registered = true; handshake = interrupted }
        ∷ [])
      true
    ∷ client 2 (record {
      handshake = done;
      reads = text (some (request_write_access 1)) ∷ binary ∷ [];
      read_end = would_block;
    })
    ∷ client 3 (record { handshake = done; reads = []; read_end = connection_closed })
    ∷ waker (
        record {
          destination = none;
          message = saved_set_list 0 [];
          is_serialized = true;
          takes = λ token. false;
        }
        ∷ [])
    ∷ []

run_event_loop-IsOrderly_example : IsOrderly (run_event_loop poll_events (new_server true)).1.sent
run_event_loop-IsOrderly_example = run_event_loop-IsOrderly poll_events (omega arith)

goes_on : (run_event_loop poll_events (new_server true)).0 ≡ ok tt
unfolding run_event_loop new_server find_client insert_client remove_client
goes_on = refl

run_event_loop-IsSound_example : IsSound (run_event_loop poll_events (new_server true)).1
run_event_loop-IsSound_example = run_event_loop-IsSound poll_events (omega arith) goes_on
