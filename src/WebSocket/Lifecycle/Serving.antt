-- ===== src/WebSocket/Lifecycle/Serving.antt =====
-- src/websocket.rs: every event of the loop keeps the map and what the core knows in agreement.
use puddle.Base.{
  ℕ, ◌+◌, ◌<◌, ◌≤◌, arith, ◌==◌, ==_iff, ◌≡◌, ◌∙◌, sym, refl, subst, true, false, Option, none,
  some, inl, inr, Bool-cases, ltb, Option-cases, if◌then◌else◌,
}
use puddle.Base.Exec.{Result, ok, err, continue}
use puddle.WebSocket.{
  Client, Clients, find_client, remove_client, insert_client, Server, ServerError, Serve,
  ClientInput, process, keep, handle_client, handle_client_event,
}
use puddle.WebSocket.Clients.{
  find-remove, find-insert, IsDistinct, remove-IsDistinct, insert-IsDistinct,
}
use puddle.WebSocket.Lifecycle.{phase, IsOrderly, Fits, IsSound}
use puddle.WebSocket.Lifecycle.Reads.{SameOthers, Leaves, process-Leaves}

-- What an operation leaves: events in order, and after success a sound server whose next token is
-- `n` further at most.
abbrev pub Keeps : ℕ → Server → Result ServerError (Unit {0}) × Server → Type 0
Keeps n s after =
    IsOrderly after.1.sent
    × (after.0 ≡ ok tt → IsSound after.1 × (after.1.next_token ≤ s.next_token + n))

pub continue-Keeps :
    (m n k : ℕ) (r : Result ServerError (Unit {0})) (next : Serve (Unit {0})) (s s' : Server)
    → m + n ≤ k
    → Keeps m s (r, s')
    → (IsSound s' → s'.next_token ≤ s.next_token + m → Keeps n s' (next s'))
    → Keeps k s (continue r (λ _. next) s')
continue-Keeps m n k (ok tt) next s s' total h follows =
    let (sound, le) = h.1 refl in
    let (orderly, after) = follows sound le in
    (orderly, λ e. let (sound', le') = after e in (sound', omega arith))
continue-Keeps m n k (err e) next s s' total h follows = (h.0, λ f. absurd (cc))

pub self : (t : ℕ) → (t == t) ≡ true
self t = (==_iff t t).1 refl

-- The client of one token goes back into the map, or not, and fits what the core knows by then.
pub returned :
    (token : ℕ) (c : Option Client) (s s' : Server)
    → IsSound s
    → (token < s.next_token)
    → s'.next_token ≡ s.next_token
    → s'.is_open ≡ true
    → IsOrderly s'.sent
    → IsDistinct s'.clients
    → Fits c (phase token s'.sent)
    → ((t : ℕ) → find_client t s'.clients ≡ (if token == t then c else find_client t s.clients))
    → SameOthers token s s'
    → IsSound s'
returned token c s s' sound lt next is_open orderly distinct fit found others = record {
  is_open = is_open;
  orderly = orderly;
  distinct = distinct;
  fits = λ t. elim (Bool-cases (token == t)) [
    | inl e ↦ rw (found t, e) (subst (λ u. Fits c (phase u s'.sent)) ((==_iff token t).0 e) fit)
    | inr e ↦ rw (found t, e, others t e) (sound.fits t)
  ];
  fresh = λ t le.
      let e : (token == t) ≡ false = ground arith in
      let le' : s.next_token ≤ t = omega arith in
      let (a, b) = sound.fresh t le' in (found t ∙ rw e a, others t e ∙ b);
}

none-some : (c : Client) → none ≡ some c → ⊥
none-some c e = cc

pub known-lt :
    (token : ℕ) (c : Client) (s : Server)
    → IsSound s
    → find_client token s.clients ≡ some c
    → token < s.next_token
known-lt token c s sound e = elim (Bool-cases (ltb token s.next_token)) [
  | inl lt ↦ ground arith
  | inr ge ↦
      let le : s.next_token ≤ token = ground arith in
      absurd (none-some c (sym (sound.fresh token le).0 ∙ e))
]

-- Removing before inserting changes nothing.
twice :
    (token t : ℕ) (c : Client) (clients : Clients)
    → (if token == t then some c else find_client t (remove_client token clients))
      ≡ (if token == t then some c else find_client t clients)
twice token t c clients = elim (Bool-cases (token == t)) [
  | inl e ↦ rw e
  | inr e ↦ rw e (find-remove t token clients ∙ rw e)
]

keep_token :
    (token : ℕ) (c : Option Client) (s : Server) → (keep token (ok c, s)).next_token ≡ s.next_token
unfolding keep
keep_token token none s = refl
keep_token token (some c) s = refl

-- A processed client goes back into the map, or is gone.
put_back :
    (token : ℕ) (c : Option Client) (s s' : Server)
    → IsSound s
    → token < s.next_token
    → s'.is_open ≡ true
    → s'.next_token ≡ s.next_token
    → IsOrderly s'.sent
    → s'.clients ≡ remove_client token s.clients
    → Fits c (phase token s'.sent)
    → SameOthers token s s'
    → IsSound (keep token (ok c, s'))
unfolding keep
put_back token none s s' sound lt is_open next orderly clients fit others =
    returned token none s s' sound lt next is_open orderly
      (rw clients (remove-IsDistinct token s.clients sound.distinct)) fit
      (λ t. rw clients (find-remove t token s.clients)) others
put_back token (some c) s s' sound lt is_open next orderly clients fit others =
    returned token (some c) s (record s' { clients = insert_client token c s'.clients }) sound lt
      next is_open orderly
      (rw clients (
        insert-IsDistinct token c (remove_client token s.clients)
          (remove-IsDistinct token s.clients sound.distinct)))
      fit
      (λ t.
        rw clients
          (find-insert t token c (remove_client token s.clients) ∙ twice token t c s.clients))
      others

kept :
    (token : ℕ) (s : Server) (after : Result ServerError (Option Client) × Server)
    → IsSound s
    → token < s.next_token
    → Leaves token (record s { clients = remove_client token s.clients }) after
    → IsSound (keep token after) × ((keep token after).next_token ≡ s.next_token)
kept token s after sound lt l = rw l.returns (
  put_back token l.client s after.1 sound lt l.is_open l.next_token l.orderly l.clients l.fits
      l.others,
  keep_token token l.client after.1 ∙ l.next_token,
)

pub handle_client_event-Keeps :
    (token : ℕ) (input : ClientInput) (s : Server)
    → IsSound s
    → Keeps 0 s (handle_client_event token input s)
unfolding handle_client_event handle_client
handle_client_event-Keeps token input s sound = elim (Option-cases (find_client token s.clients)) [
  | inl e ↦ rw (e, handle_client) (sound.orderly, λ f. (sound, omega arith))
  | inr (c, e) ↦
      let removed = record s { clients = remove_client token s.clients } in
      let fit : Fits (some c) (phase token s.sent) =
        subst (λ o. Fits o (phase token s.sent)) e (sound.fits token) in
      let (sound', next) =
        kept token s (process token input c removed) sound (known-lt token c s sound e)
          (process-Leaves token input c removed sound.is_open sound.orderly fit) in
      rw (e, handle_client) (sound'.orderly, λ f. (sound', omega arith))
]
