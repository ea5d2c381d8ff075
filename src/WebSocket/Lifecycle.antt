-- ===== src/WebSocket/Lifecycle.antt =====
-- src/websocket.rs: what the core is told of the clients.
pub mod Reads
pub mod Serving
pub mod Accepting
pub mod Sending
pub mod Runs
use puddle.Base.{
  ℕ, arith, ◌≤◌, ◌==◌, ==_iff, ◌≡◌, ◌∙◌, sym, refl, ap, Bool, true, false, Option, none, some, List,
  [], ◌∷◌, inl, inr, Bool-cases, if◌then◌else◌,
}
use puddle.Messages.{web_socket}
use puddle.Core.Event.{CoreEvent, controller_connected, controller_disconnected, message}
use puddle.WebSocket.{Client, handshaking, connected, find_client, Server}
use puddle.WebSocket.Clients.{IsDistinct}

-- How far a token has come, by what was sent, the newest first.
pub data Phase : Type 0 where
  unseen alive over : Phase

abbrev pub phase_after : CoreEvent → ℕ → Phase → Phase
phase_after (controller_connected (web_socket u)) t p = if u == t then alive else p
phase_after (controller_disconnected (web_socket u)) t p = if u == t then over else p
phase_after _ t p = p

unfoldable pub phase : ℕ → List CoreEvent → Phase
phase t [] = unseen
phase t (event ∷ sent) = phase_after event t (phase t sent)

-- What may be sent next of this thread's events.
abbrev pub IsAllowed : CoreEvent → List CoreEvent → Type 0
IsAllowed (controller_connected (web_socket t)) sent = phase t sent ≡ unseen
IsAllowed (controller_disconnected (web_socket t)) sent = phase t sent ≡ alive
IsAllowed (message (web_socket t) _) sent = phase t sent ≡ alive
IsAllowed _ sent = ⊥

-- Every client is announced as connected once, under a token that was not seen before; then its
-- messages follow; then it is announced as disconnected, at most once, and nothing follows.
unfoldable pub IsOrderly : List CoreEvent → Type 0
IsOrderly [] = Unit {0}
IsOrderly (event ∷ sent) = IsAllowed event sent × IsOrderly sent

-- A client in the map is connected just when the core knows it to be.
abbrev pub Fits : Option Client → Phase → Type 0
Fits (some connected) alive = Unit {0}
Fits (some handshaking) unseen = Unit {0}
Fits none unseen = Unit {0}
Fits none over = Unit {0}
Fits _ _ = ⊥

-- While the core receives, the map and what was sent agree, and the next token is new.
pub record IsSound (s : Server) : Type 0 where
  pub is_open : s.is_open ≡ true
  pub orderly : IsOrderly s.sent
  pub distinct : IsDistinct s.clients
  pub fits : (t : ℕ) → Fits (find_client t s.clients) (phase t s.sent)
  pub fresh :
      (t : ℕ) → s.next_token ≤ t → (find_client t s.clients ≡ none) × (phase t s.sent ≡ unseen)

pub connected_alive : (p : Phase) → Fits (some connected) p → p ≡ alive
connected_alive alive h = refl
connected_alive _ h = absurd h

pub handshaking_unseen : (p : Phase) → Fits (some handshaking) p → p ≡ unseen
handshaking_unseen unseen h = refl
handshaking_unseen _ h = absurd h
