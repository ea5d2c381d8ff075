-- ===== src/WebSocket/Lifecycle/Accepting.antt =====
-- src/websocket.rs: new clients get new tokens.
use puddle.Base.{
  ◌+◌, ◌^◌, ◌<◌, arith, ◌≡◌, refl, Bool, true, false, some, List, [], ◌∷◌, inl, inr, Bool-cases,
  length,
}
use puddle.Base.Exec.{ok}
use puddle.Messages.{web_socket}
use puddle.Core.Event.{controller_connected}
use puddle.WebSocket.{
  handshaking, connected, insert_client, Server, Handshake, done, interrupted, failed, shake,
  Accepted, take_token, accept_one, accept_connections,
}
use puddle.WebSocket.Clients.{find-insert, insert-IsDistinct}
use puddle.WebSocket.Lifecycle.{phase, IsOrderly, IsSound}
use puddle.WebSocket.Lifecycle.Reads.{tell_core-open}
use puddle.WebSocket.Lifecycle.Serving.{Keeps, continue-Keeps, self, returned}

-- The token is taken, and unknown as yet.
take_token-IsSound :
    (s : Server)
    → IsSound s
    → s.next_token + 1 < 2 ^ 64
    → IsSound (take_token s) × ((take_token s).next_token ≡ s.next_token + 1)
take_token-IsSound s sound lt = (
  record {
    is_open = sound.is_open;
    orderly = sound.orderly;
    distinct = sound.distinct;
    fits = sound.fits;
    fresh = λ t le. sound.fresh t (omega arith);
  },
  omega arith,
)

shake-IsSound :
    (shakes : Handshake) (s : Server)
    → IsSound s
    → s.next_token + 1 < 2 ^ 64
    → ((shake s.next_token shakes (take_token s)).0 ≡ ok tt)
      × (IsSound (shake s.next_token shakes (take_token s)).1
          × ((shake s.next_token shakes (take_token s)).1.next_token ≡ s.next_token + 1))
unfolding shake phase IsOrderly
shake-IsSound done s sound lt =
    let token = s.next_token in
    let (taken, next) = take_token-IsSound s sound lt in
    let clients = insert_client token connected s.clients in
    let event = controller_connected (web_socket token) in
    let unseen = (sound.fresh token (omega arith)).1 in
    rw (tell_core-open event (record (take_token s) { clients = clients }) sound.is_open) (
      refl,
      (
        returned token (some connected) (take_token s)
            (record (take_token s) { clients = clients; sent = event ∷ s.sent }) taken (omega arith)
            refl sound.is_open (unseen, sound.orderly)
            (insert-IsDistinct token connected s.clients sound.distinct) (rw (self token) tt)
            (λ t. find-insert t token connected s.clients) (λ t differs. rw differs),
        next,
      ),
    )
shake-IsSound interrupted s sound lt =
    let token = s.next_token in
    let (taken, next) = take_token-IsSound s sound lt in
    let clients = insert_client token handshaking s.clients in
    (
      refl,
      (
        returned token (some handshaking) (take_token s)
            (record (take_token s) { clients = clients }) taken (omega arith) refl sound.is_open
            sound.orderly (insert-IsDistinct token handshaking s.clients sound.distinct)
            (rw (sound.fresh token (omega arith)).1 tt)
            (λ t. find-insert t token handshaking s.clients) (λ t differs. refl),
        next,
      ),
    )
shake-IsSound failed s sound lt =
    let (taken, next) = take_token-IsSound s sound lt in (refl, (taken, next))

accept_one-Keeps :
    (a : Accepted) (s : Server) → IsSound s → s.next_token + 1 < 2 ^ 64 → Keeps 1 s (accept_one a s)
unfolding accept_one
accept_one-Keeps a s sound lt = elim (Bool-cases a.is_registered) [
  | inl e ↦
      let (_, (sound', next)) = shake-IsSound a.handshake s sound lt in
      rw e (sound'.orderly, λ f. (sound', omega arith))
  | inr e ↦ rw e (sound.orderly, λ f. absurd (cc))
]

pub accept_connections-Keeps :
    (accepts : List Accepted) (blocks : Bool) (s : Server)
    → IsSound s
    → s.next_token + length accepts < 2 ^ 64
    → Keeps (length accepts) s (accept_connections accepts blocks s)
unfolding accept_connections
accept_connections-Keeps [] true s sound lt = (sound.orderly, λ f. (sound, omega arith))
accept_connections-Keeps [] false s sound lt = (sound.orderly, λ f. absurd (cc))
accept_connections-Keeps (a ∷ accepts) blocks s sound lt =
    continue-Keeps 1 (length accepts) (length (a ∷ accepts)) (accept_one a s).0
      (accept_connections accepts blocks) s (accept_one a s).1 (omega arith)
      (accept_one-Keeps a s sound (omega arith))
      (λ sound' le. accept_connections-Keeps accepts blocks (accept_one a s).1 sound' (omega arith))
