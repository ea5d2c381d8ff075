-- ===== src/WebSocket/Lifecycle/Reads.antt =====
-- src/websocket.rs: one client, out of the map while it is processed.
use puddle.Base.{ℕ, ◌==◌, ==_iff, ◌≡◌, ◌∙◌, refl, true, false, Option, none, some, List, [], ◌∷◌}
use puddle.Base.Exec.{Result, ok, ◌>>◌, pure}
use puddle.Messages.{web_socket}
use puddle.Core.Event.{CoreEvent, controller_connected, controller_disconnected, message}
use puddle.WebSocket.{
  Client, handshaking, connected, Server, ServerError, Serve, tell_core, Handshake, done,
  interrupted, failed, Read, text, binary, other, ReadEnd, would_block, connection_closed,
  read_failed, read_one, read_all, read_end, ClientInput, handshake_again, process,
}
use puddle.WebSocket.Lifecycle.{
  unseen, alive, phase, IsAllowed, IsOrderly, Fits, connected_alive, handshaking_unseen,
}

-- The events of one token leave the phase of the others.
abbrev pub SameOthers : ℕ → Server → Server → Type 0
SameOthers token s s' = (t : ℕ) → (token == t) ≡ false → phase t s'.sent ≡ phase t s.sent

-- What processing leaves while the core receives: the map as it was, the order of events, and a
-- client that fits.
pub record Leaves (token : ℕ) (s : Server) (after : Result ServerError (Option Client) × Server)
    : Type 0 where
  pub client : Option Client
  pub returns : after.0 ≡ ok client
  pub is_open : after.1.is_open ≡ true
  pub clients : after.1.clients ≡ s.clients
  pub next_token : after.1.next_token ≡ s.next_token
  pub orderly : IsOrderly after.1.sent
  pub others : SameOthers token s after.1
  pub fits : Fits client (phase token after.1.sent)

pub tell_core-open :
    (event : CoreEvent) (s : Server)
    → s.is_open ≡ true
    → tell_core event s ≡ (ok tt, record s { sent = event ∷ s.sent })
unfolding tell_core
tell_core-open event s h = rw h refl

-- Processing ends here.
ends :
    (token : ℕ) (c : Option Client) (s : Server)
    → s.is_open ≡ true
    → IsOrderly s.sent
    → Fits c (phase token s.sent)
    → Leaves token s (ok c, s)
ends token c s is_open orderly fit = record {
  client = c;
  returns = refl;
  is_open = is_open;
  clients = refl;
  next_token = refl;
  orderly = orderly;
  others = λ t differs. refl;
  fits = fit;
}

-- An event of the token, and what follows.
tells :
    (token : ℕ) (event : CoreEvent) (next : Serve (Option Client)) (s : Server)
    → s.is_open ≡ true
    → IsOrderly s.sent
    → IsAllowed event s.sent
    → ((t : ℕ) → (token == t) ≡ false → phase t (event ∷ s.sent) ≡ phase t s.sent)
    → ((s' : Server)
        → s'.is_open ≡ true
        → s'.sent ≡ event ∷ s.sent
        → IsOrderly s'.sent
        → Leaves token s' (next s'))
    → Leaves token s ((tell_core event >> next) s)
unfolding IsOrderly
tells token event next s is_open orderly allowed others follows =
    let s' = record s { sent = event ∷ s.sent } in
    let l = follows s' is_open refl (allowed, orderly) in
    rw (tell_core-open event s is_open) (record {
      client = l.client;
      returns = l.returns;
      is_open = l.is_open;
      clients = l.clients;
      next_token = l.next_token;
      orderly = l.orderly;
      others = λ t differs. l.others t differs ∙ others t differs;
      fits = l.fits;
    })

-- The phase after an event of the same token.
self : (t : ℕ) → (t == t) ≡ true
self t = (==_iff t t).1 refl

closes-Leaves :
    (token : ℕ) (s : Server)
    → s.is_open ≡ true
    → IsOrderly s.sent
    → phase token s.sent ≡ alive
    → Leaves token s ((tell_core (controller_disconnected (web_socket token)) >> pure none) s)
unfolding phase
closes-Leaves token s is_open orderly h =
    tells token (controller_disconnected (web_socket token)) (pure none) s is_open orderly h
      (λ t differs. rw differs)
      (λ s' is_open' e orderly'. ends token none s' is_open' orderly' (rw (e, self token) tt))

read_end-Leaves :
    (token : ℕ) (end : ReadEnd) (s : Server)
    → s.is_open ≡ true
    → IsOrderly s.sent
    → phase token s.sent ≡ alive
    → Leaves token s (read_end token end s)
unfolding read_end
read_end-Leaves token would_block s is_open orderly h =
    ends token (some connected) s is_open orderly (rw h tt)
read_end-Leaves token connection_closed s is_open orderly h =
    closes-Leaves token s is_open orderly h
read_end-Leaves token read_failed s is_open orderly h = closes-Leaves token s is_open orderly h

read_all-Leaves :
    (token : ℕ) (reads : List Read) (end : ReadEnd) (s : Server)
    → s.is_open ≡ true
    → IsOrderly s.sent
    → phase token s.sent ≡ alive
    → Leaves token s (read_all token reads end s)
unfolding read_all read_one phase
read_all-Leaves token [] end s is_open orderly h = read_end-Leaves token end s is_open orderly h
read_all-Leaves token (text (some m) ∷ reads) end s is_open orderly h =
    tells token (message (web_socket token) m) (read_all token reads end) s is_open orderly h
      (λ t differs. refl)
      (λ s' is_open' e orderly'. read_all-Leaves token reads end s' is_open' orderly' (rw e h))
read_all-Leaves token (text none ∷ reads) end s is_open orderly h =
    read_all-Leaves token reads end s is_open orderly h
read_all-Leaves token (binary ∷ reads) end s is_open orderly h =
    read_all-Leaves token reads end s is_open orderly h
read_all-Leaves token (other ∷ reads) end s is_open orderly h =
    read_all-Leaves token reads end s is_open orderly h

handshake_again-Leaves :
    (token : ℕ) (shake : Handshake) (reads : List Read) (end : ReadEnd) (s : Server)
    → s.is_open ≡ true
    → IsOrderly s.sent
    → phase token s.sent ≡ unseen
    → Leaves token s (handshake_again token shake reads end s)
unfolding handshake_again phase
handshake_again-Leaves token done reads end s is_open orderly h =
    tells token (controller_connected (web_socket token)) (read_all token reads end) s is_open
      orderly h (λ t differs. rw differs)
      (λ s' is_open' e orderly'.
        read_all-Leaves token reads end s' is_open' orderly' (rw (e, self token)))
handshake_again-Leaves token interrupted reads end s is_open orderly h =
    ends token (some handshaking) s is_open orderly (rw h tt)
handshake_again-Leaves token failed reads end s is_open orderly h =
    ends token none s is_open orderly (rw h tt)

pub process-Leaves :
    (token : ℕ) (input : ClientInput) (client : Client) (s : Server)
    → s.is_open ≡ true
    → IsOrderly s.sent
    → Fits (some client) (phase token s.sent)
    → Leaves token s (process token input client s)
unfolding process
process-Leaves token input handshaking s is_open orderly fit =
    handshake_again-Leaves token input.handshake input.reads input.read_end s is_open orderly
      (handshaking_unseen (phase token s.sent) fit)
process-Leaves token input connected s is_open orderly fit =
    read_all-Leaves token input.reads input.read_end s is_open orderly
      (connected_alive (phase token s.sent) fit)
