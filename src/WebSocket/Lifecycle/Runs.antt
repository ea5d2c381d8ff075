-- ===== src/WebSocket/Lifecycle/Runs.antt =====
-- src/websocket.rs: the order of what the core is told, over whole runs.
use puddle.Base.{ℕ, ◌+◌, ◌^◌, ◌<◌, arith, ◌≡◌, refl, true, List, [], ◌∷◌, length}
use puddle.Base.Exec.{ok}
use puddle.WebSocket.{
  find_client, Server, PollEvent, server, waker, client, handle_poll, run_event_loop, new_server,
}
use puddle.WebSocket.Clients.{IsDistinct}
use puddle.WebSocket.Lifecycle.{phase, IsOrderly, IsSound}
use puddle.WebSocket.Lifecycle.Serving.{Keeps, continue-Keeps, handle_client_event-Keeps}
use puddle.WebSocket.Lifecycle.Accepting.{accept_connections-Keeps}
use puddle.WebSocket.Lifecycle.Sending.{handle_outbound-Keeps}

-- How many connections are accepted.
abbrev pub accepts_of : PollEvent → ℕ
accepts_of (server accepts blocks) = length accepts
accepts_of (waker outbound) = 0
accepts_of (client token input) = 0

abbrev pub count_accepts : List PollEvent → ℕ
count_accepts [] = 0
count_accepts (event ∷ events) = accepts_of event + count_accepts events

handle_poll-Keeps :
    (event : PollEvent) (s : Server)
    → IsSound s
    → s.next_token + accepts_of event < 2 ^ 64
    → Keeps (accepts_of event) s (handle_poll event s)
unfolding handle_poll
handle_poll-Keeps (server accepts blocks) s sound lt =
    accept_connections-Keeps accepts blocks s sound lt
handle_poll-Keeps (waker outbound) s sound lt = handle_outbound-Keeps outbound s sound
handle_poll-Keeps (client token input) s sound lt = handle_client_event-Keeps token input s sound

run-Keeps :
    (events : List PollEvent) (s : Server)
    → IsSound s
    → s.next_token + count_accepts events < 2 ^ 64
    → Keeps (count_accepts events) s (run_event_loop events s)
unfolding run_event_loop
run-Keeps [] s sound lt = (sound.orderly, λ f. (sound, omega arith))
run-Keeps (event ∷ events) s sound lt =
    continue-Keeps (accepts_of event) (count_accepts events) (count_accepts (event ∷ events))
      (handle_poll event s).0 (run_event_loop events) s (handle_poll event s).1 (omega arith)
      (handle_poll-Keeps event s sound (omega arith))
      (λ sound' le. run-Keeps events (handle_poll event s).1 sound' (omega arith))

new_server-IsSound : IsSound (new_server true)
unfolding new_server IsOrderly IsDistinct phase find_client
new_server-IsSound = record {
  is_open = refl;
  orderly = tt;
  distinct = tt;
  fits = λ t. tt;
  fresh = λ t le. (refl, refl);
}

start-Keeps :
    (events : List PollEvent)
    → 2 + count_accepts events < 2 ^ 64
    → Keeps (count_accepts events) (new_server true) (run_event_loop events (new_server true))
unfolding new_server
start-Keeps events lt = run-Keeps events (new_server true) new_server-IsSound lt

-- While the core receives and fewer connections are accepted than there are tokens, what the thread
-- tells the core is in order after any events, also after the error that ends the loop: each client
-- is announced as connected once, under a token that was not seen before; then its messages follow;
-- then it is announced as disconnected, at most once, and nothing follows.
pub run_event_loop-IsOrderly :
    (events : List PollEvent)
    → 2 + count_accepts events < 2 ^ 64
    → IsOrderly (run_event_loop events (new_server true)).1.sent
run_event_loop-IsOrderly events lt = (start-Keeps events lt).0

-- While the core receives and fewer connections are accepted than there are tokens, as long as the
-- loop goes on, the clients that are connected are just those that the core knows as connected; no
-- token is in the map twice; and the next token is in no event and not in the map.
pub run_event_loop-IsSound :
    (events : List PollEvent)
    → 2 + count_accepts events < 2 ^ 64
    → (run_event_loop events (new_server true)).0 ≡ ok tt
    → IsSound (run_event_loop events (new_server true)).1
run_event_loop-IsSound events lt goes_on = ((start-Keeps events lt).1 goes_on).0
