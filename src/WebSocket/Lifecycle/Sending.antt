-- ===== src/WebSocket/Lifecycle/Sending.antt =====
-- src/websocket.rs: clients to whom nothing can be sent are removed, and the core is told.
use puddle.Base.{
  ℕ, arith, ◌==◌, ==_iff, ◌≡◌, ◌∙◌, sym, refl, Bool, false, Option, none, some, List, [], ◌∷◌, inl,
  inr, All, Bool-cases, Option-cases,
}
use puddle.Messages.{web_socket}
use puddle.Core.Event.{controller_disconnected}
use puddle.WebSocket.{
  Client, handshaking, connected, Clients, find_client, remove_client, Server, Outbound, fails,
  broadcast_fails, send_fails, to_remove, remove_all, deliver, handle_outbound,
}
use puddle.WebSocket.Clients.{find-remove, IsDistinct, remove-IsDistinct}
use puddle.WebSocket.Lifecycle.{phase, IsOrderly, IsSound, connected_alive, Fits}
use puddle.WebSocket.Lifecycle.Reads.{tell_core-open}
use puddle.WebSocket.Lifecycle.Serving.{Keeps, continue-Keeps, self, returned, known-lt}
use puddle.Base.{subst}

module _ {ℓ κ μ} {A : Type ℓ} (P : A → Type κ) (Q : A → Type μ) where
  map-All : (xs : List A) → ((x : A) → P x → Q x) → All P xs → All Q xs
  map-All [] f h = tt
  map-All (x ∷ xs) f h = (f x h.0, map-All xs f h.1)

  both-All : (xs : List A) → All P xs → All Q xs → All (λ x. P x × Q x) xs
  both-All [] h k = tt
  both-All (x ∷ xs) h k = ((h.0, k.0), both-All xs h.1 k.1)

-- A token that is connected, and one that is another.
abbrev IsConnected : Clients → ℕ → Type 0
IsConnected clients t = find_client t clients ≡ some connected

abbrev IsNot : ℕ → ℕ → Type 0
IsNot t u = (t == u) ≡ false

abbrev IsUnique : List ℕ → Type 0
IsUnique [] = Unit {0}
IsUnique (t ∷ tokens) = All (IsNot t) tokens × IsUnique tokens

-- Of the clients that are to go: they are connected, and each is there once.
abbrev Goes : Clients → List ℕ → Type 0
Goes clients tokens = All (IsConnected clients) tokens × IsUnique tokens

none-some : (c : Client) → none ≡ some c → ⊥
none-some c e = cc

differ :
    (t u : ℕ) (c : Client) (clients : Clients)
    → find_client t clients ≡ none
    → find_client u clients ≡ some c
    → (t == u) ≡ false
differ t u c clients h e = elim (Bool-cases (t == u)) [
  | inl same ↦
      absurd
        (none-some c (sym (subst (λ k. find_client k clients ≡ none) ((==_iff t u).0 same) h) ∙ e))
  | inr other ↦ other
]

broadcast_fails-Goes :
    (takes : ℕ → Bool) (clients : Clients)
    → IsDistinct clients
    → Goes clients (broadcast_fails takes clients)
unfolding broadcast_fails fails IsDistinct find_client
broadcast_fails-Goes takes [] h = (tt, tt)
broadcast_fails-Goes takes ((k, connected) ∷ clients) h =
    let rest = broadcast_fails takes clients in
    let (found, unique) = broadcast_fails-Goes takes clients h.1 in
    let apart =
      map-All (IsConnected clients) (IsNot k) rest (λ u e. differ k u connected clients h.0 e)
        found in
    let lifted =
      map-All (IsConnected clients) (IsConnected ((k, connected) ∷ clients)) rest
        (λ u e. rw (differ k u connected clients h.0 e) e) found in
    elim (Bool-cases (takes k)) [
      | inl e ↦ rw e (lifted, unique)
      | inr e ↦ rw e ((rw (self k) refl, lifted), (apart, unique))
    ]
broadcast_fails-Goes takes ((k, handshaking) ∷ clients) h =
    let rest = broadcast_fails takes clients in
    let (found, unique) = broadcast_fails-Goes takes clients h.1 in
    (
      map-All (IsConnected clients) (IsConnected ((k, handshaking) ∷ clients)) rest
          (λ u e. rw (differ k u connected clients h.0 e) e) found,
      unique,
    )

send_fails-Goes :
    (takes : ℕ → Bool) (t : ℕ) (c : Option Client) (clients : Clients)
    → find_client t clients ≡ c
    → Goes clients (send_fails takes t c)
unfolding send_fails fails
send_fails-Goes takes t none clients e = (tt, tt)
send_fails-Goes takes t (some handshaking) clients e = (tt, tt)
send_fails-Goes takes t (some connected) clients e = elim (Bool-cases (takes t)) [
  | inl f ↦ rw f (tt, tt)
  | inr f ↦ rw f ((e, tt), (tt, tt))
]

to_remove-Goes : (o : Outbound) (s : Server) → IsSound s → Goes s.clients (to_remove o s.clients)
unfolding to_remove
to_remove-Goes o s sound = elim (Option-cases o.destination) [
  | inl e ↦ rw (e, to_remove) (broadcast_fails-Goes o.takes s.clients sound.distinct)
  | inr (t, e) ↦
      rw (e, to_remove) (send_fails-Goes o.takes t (find_client t s.clients) s.clients refl)
]

-- One client is removed and the core told.
remove_one-IsSound :
    (token : ℕ) (s : Server)
    → IsSound s
    → find_client token s.clients ≡ some connected
    → IsSound (record s {
      clients = remove_client token s.clients;
      sent = controller_disconnected (web_socket token) ∷ s.sent;
    })
unfolding phase IsOrderly
remove_one-IsSound token s sound e =
    let was_alive =
      connected_alive (phase token s.sent)
        (subst (λ o. Fits o (phase token s.sent)) e (sound.fits token)) in
    returned token none s _ sound (known-lt token connected s sound e) refl sound.is_open
      (was_alive, sound.orderly) (remove-IsDistinct token s.clients sound.distinct)
      (rw (self token) tt) (λ t. find-remove t token s.clients) (λ t differs. rw differs)

remove_all-Keeps :
    (tokens : List ℕ) (s : Server)
    → IsSound s
    → Goes s.clients tokens
    → Keeps 0 s (remove_all tokens s)
unfolding remove_all
remove_all-Keeps [] s sound goes = (sound.orderly, λ f. (sound, omega arith))
remove_all-Keeps (token ∷ tokens) s sound ((e, found), (apart, unique)) =
    let clients = remove_client token s.clients in
    let event = controller_disconnected (web_socket token) in
    let found' =
      map-All (λ u. IsConnected s.clients u × IsNot token u) (IsConnected clients) tokens
        (λ u h. find-remove u token s.clients ∙ rw h.1 h.0)
        (both-All (IsConnected s.clients) (IsNot token) tokens found apart) in
    rw (tell_core-open event (record s { clients = clients }) sound.is_open) (
      remove_all-Keeps tokens (record s { clients = clients; sent = event ∷ s.sent })
        (remove_one-IsSound token s sound e) (found', unique))

deliver-Keeps : (o : Outbound) (s : Server) → IsSound s → Keeps 0 s (deliver o s)
unfolding deliver
deliver-Keeps o s sound = elim (Bool-cases o.is_serialized) [
  | inl e ↦ rw e (remove_all-Keeps (to_remove o s.clients) s sound (to_remove-Goes o s sound))
  | inr e ↦ rw e (sound.orderly, λ f. absurd (cc))
]

pub handle_outbound-Keeps :
    (outbound : List Outbound) (s : Server) → IsSound s → Keeps 0 s (handle_outbound outbound s)
unfolding handle_outbound
handle_outbound-Keeps [] s sound = (sound.orderly, λ f. (sound, omega arith))
handle_outbound-Keeps (o ∷ outbound) s sound =
    continue-Keeps 0 0 0 (deliver o s).0 (handle_outbound outbound) s (deliver o s).1 (omega arith)
      (deliver-Keeps o s sound) (λ sound' le. handle_outbound-Keeps outbound (deliver o s).1 sound')
