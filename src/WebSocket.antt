-- ===== src/WebSocket.antt =====
-- src/websocket.rs: the thread that serves the WebSocket clients. What mio, tungstenite and serde do
-- is given as a list of their answers.
pub mod Clients
pub mod Lifecycle
use puddle.Base.{
  ℕ, ◌+◌, ◌%◌, ◌^◌, ◌==◌, Bool, true, false, Option, none, some, List, [], ◌∷◌, if◌then◌else◌,
}
use puddle.Base.Exec.{Result, ok, err, Exec, pure, raise, ◌>>=◌, ◌>>◌}
use puddle.Messages.{ClientMessage, CoreMessage, web_socket}
use puddle.Core.Event.{CoreEvent, controller_connected, controller_disconnected, message}

pub data Client : Type 0 where
  handshaking connected : Client

-- `HashMap<Token, Client>`, with at most one entry of a token.
abbrev pub Clients : Type 0
Clients = List (ℕ × Client)

unfoldable pub find_client : ℕ → Clients → Option Client
find_client token [] = none
find_client token ((t, c) ∷ clients) = if t == token then some c else find_client token clients

unfoldable pub remove_client : ℕ → Clients → Clients
remove_client token [] = []
remove_client token ((t, c) ∷ clients) =
    let rest = remove_client token clients in if t == token then rest else (t, c) ∷ rest

unfoldable pub insert_client : ℕ → Client → Clients → Clients
insert_client token client clients = (token, client) ∷ remove_client token clients

-- What `run_event_loop` keeps, and its channel to the core: what was sent, the newest first, and
-- whether the core still receives.
pub record Server : Type 0 where
  pub clients : Clients
  pub next_token : ℕ
  pub sent : List CoreEvent
  pub is_open : Bool

-- `?` on the channel, on the registry, on `accept`, on serde.
pub data ServerError : Type 0 where
  core_gone not_registered accept_failed not_serialized : ServerError

abbrev pub Serve : Type 0 → Type 0
Serve A = Exec Server ServerError A

-- `inbound_sender.send`
unfoldable pub tell_core : CoreEvent → Serve (Unit {0})
tell_core event s =
    if s.is_open then (ok tt, record s { sent = event ∷ s.sent }) else (err core_gone, s)

abbrev pub update_clients : (Clients → Clients) → Serve (Unit {0})
update_clients f s = (ok tt, record s { clients = f s.clients })

-- `tungstenite::accept` and `MidHandshake::handshake`
pub data Handshake : Type 0 where
  done interrupted failed : Handshake

-- `listener.accept()`: a stream, whether it is registered, and what its handshake does.
pub record Accepted : Type 0 where
  pub is_registered : Bool
  pub handshake : Handshake

unfoldable pub shake : ℕ → Handshake → Serve (Unit {0})
unfolding tell_core
shake token done = do
  update_clients (insert_client token connected)
  tell_core (controller_connected (web_socket token))
shake token interrupted = update_clients (insert_client token handshaking)
shake token failed = pure tt

-- Of a usize.
abbrev pub next_token_after : ℕ → ℕ
next_token_after token = (token + 1) % 2 ^ 64

abbrev pub take_token : Server → Server
take_token s = record s { next_token = next_token_after s.next_token }

unfoldable pub accept_one : Accepted → Serve (Unit {0})
unfolding shake
accept_one a s =
    if a.is_registered
    then shake s.next_token a.handshake (take_token s)
    else (err not_registered, take_token s)

-- Until `accept` would block, or fails.
unfoldable pub accept_connections : List Accepted → Bool → Serve (Unit {0})
unfolding accept_one
accept_connections [] true = pure tt
accept_connections [] false = raise accept_failed
accept_connections (a ∷ accepts) blocks = do accept_one a; accept_connections accepts blocks

-- A message from the core, whether serde makes a text of it, and which sockets take it.
pub record Outbound : Type 0 where
  pub destination : Option ℕ
  pub message : CoreMessage
  pub is_serialized : Bool
  pub takes : ℕ → Bool

-- `if let Client::Connected(ws, addr) = client`
unfoldable pub fails : (ℕ → Bool) → ℕ → Client → List ℕ → List ℕ
fails takes token connected rest = if takes token then rest else token ∷ rest
fails takes token handshaking rest = rest

unfoldable pub broadcast_fails : (ℕ → Bool) → Clients → List ℕ
unfolding fails
broadcast_fails takes [] = []
broadcast_fails takes ((t, c) ∷ clients) = fails takes t c (broadcast_fails takes clients)

-- An unknown client is only logged.
unfoldable pub send_fails : (ℕ → Bool) → ℕ → Option Client → List ℕ
unfolding fails
send_fails takes token (some c) = fails takes token c []
send_fails takes token none = []

-- `to_remove`
unfoldable pub to_remove : Outbound → Clients → List ℕ
unfolding send_fails broadcast_fails
to_remove o clients = elim o.destination [
  | some token ↦ send_fails o.takes token (find_client token clients)
  | none ↦ broadcast_fails o.takes clients
]

unfoldable pub remove_all : List ℕ → Serve (Unit {0})
unfolding tell_core
remove_all [] = pure tt
remove_all (token ∷ tokens) = do
  update_clients (remove_client token)
  tell_core (controller_disconnected (web_socket token))
  remove_all tokens

unfoldable pub deliver : Outbound → Serve (Unit {0})
unfolding to_remove remove_all
deliver o s =
    if o.is_serialized then remove_all (to_remove o s.clients) s else (err not_serialized, s)

-- Until the channel is empty.
unfoldable pub handle_outbound : List Outbound → Serve (Unit {0})
unfolding deliver
handle_outbound [] = pure tt
handle_outbound (o ∷ outbound) = do deliver o; handle_outbound outbound

-- `ws.read()`, up to the error that ends the loop: a text with what serde makes of it, a binary
-- message, or another.
pub data Read : Type 0 where
  text : Option ClientMessage → Read
  binary other : Read

pub data ReadEnd : Type 0 where
  would_block connection_closed read_failed : ReadEnd

unfoldable pub read_end : ℕ → ReadEnd → Serve (Option Client)
read_end token would_block = pure (some connected)
read_end token _ = do tell_core (controller_disconnected (web_socket token)); pure none

unfoldable pub read_one : ℕ → Read → Serve (Unit {0})
unfolding tell_core
read_one token (text (some m)) = tell_core (message (web_socket token) m)
read_one token _ = pure tt

unfoldable pub read_all : ℕ → List Read → ReadEnd → Serve (Option Client)
unfolding read_one read_end
read_all token [] end = read_end token end
read_all token (r ∷ reads) end = do read_one token r; read_all token reads end

-- What the sockets of one client do in one event.
pub record ClientInput : Type 0 where
  pub handshake : Handshake
  pub reads : List Read
  pub read_end : ReadEnd

unfoldable pub handshake_again : ℕ → Handshake → List Read → ReadEnd → Serve (Option Client)
unfolding tell_core read_all
handshake_again token done reads end = do
  tell_core (controller_connected (web_socket token))
  read_all token reads end
handshake_again token interrupted reads end = pure (some handshaking)
handshake_again token failed reads end = pure none

-- `Client::process`
unfoldable pub process : ℕ → ClientInput → Client → Serve (Option Client)
unfolding handshake_again read_all
process token input handshaking = handshake_again token input.handshake input.reads input.read_end
process token input connected = read_all token input.reads input.read_end

-- What `process` returns goes back into the map; its error is only logged.
unfoldable pub keep : ℕ → Result ServerError (Option Client) × Server → Server
keep token (ok (some client), s) = record s { clients = insert_client token client s.clients }
keep token (ok none, s) = s
keep token (err e, s) = s

unfoldable pub handle_client : ℕ → ClientInput → Option Client → Server → Server
unfolding process keep
handle_client token input (some client) s =
    keep token (process token input client (record s { clients = remove_client token s.clients }))
handle_client token input none s = s

unfoldable pub handle_client_event : ℕ → ClientInput → Serve (Unit {0})
unfolding handle_client
handle_client_event token input s =
    (ok tt, handle_client token input (find_client token s.clients) s)

-- An event of `poll`: of the listener, of the waker, or of a client.
pub data PollEvent : Type 0 where
  server : List Accepted → Bool → PollEvent
  waker : List Outbound → PollEvent
  client : ℕ → ClientInput → PollEvent

unfoldable pub handle_poll : PollEvent → Serve (Unit {0})
unfolding accept_connections handle_outbound handle_client_event
handle_poll (server accepts blocks) = accept_connections accepts blocks
handle_poll (waker outbound) = handle_outbound outbound
handle_poll (client token input) = handle_client_event token input

-- The loop, which ends with the first error.
unfoldable pub run_event_loop : List PollEvent → Serve (Unit {0})
unfolding handle_poll
run_event_loop [] = pure tt
run_event_loop (event ∷ events) = do handle_poll event; run_event_loop events

unfoldable pub new_server : Bool → Server
new_server is_open = record { clients = []; next_token = 2; sent = []; is_open = is_open }
