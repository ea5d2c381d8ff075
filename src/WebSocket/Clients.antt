-- ===== src/WebSocket/Clients.antt =====
-- src/websocket.rs: laws of the map of clients, which has one entry of a token.
use puddle.Base.{
  ℕ, arith, ◌==◌, ==_iff, ◌≡◌, ◌∙◌, refl, false, none, some, [], ◌∷◌, inl, inr, Bool-cases,
  if◌then◌else◌,
}
use puddle.WebSocket.{Client, Clients, find_client, remove_client, insert_client}

pub find-remove :
    (u t : ℕ) (clients : Clients)
    → find_client u (remove_client t clients) ≡ (if t == u then none else find_client u clients)
unfolding find_client remove_client
find-remove u t [] = ground arith
find-remove u t ((k, c) ∷ clients) = elim (Bool-cases (k == t)) [
  | inl e ↦ elim (Bool-cases (t == u)) [
    | inl f ↦ rw (e, f) (find-remove u t clients ∙ rw f)
    | inr f ↦ rw (e, f, (==_iff k t).0 e, f) (find-remove u t clients ∙ rw f)
  ]
  | inr e ↦ elim (Bool-cases (k == u)) [
    | inl f ↦ let other : (t == u) ≡ false = ground (arith, (==_iff k u).0 f) in rw (e, other, f)
    | inr f ↦ rw (e, f) (find-remove u t clients)
  ]
]

pub find-insert :
    (u t : ℕ) (c : Client) (clients : Clients)
    → find_client u (insert_client t c clients) ≡ (if t == u then some c else find_client u clients)
unfolding insert_client find_client
find-insert u t c clients = elim (Bool-cases (t == u)) [
  | inl e ↦ rw e
  | inr e ↦ rw e (find-remove u t clients ∙ rw e)
]

-- No token twice.
unfoldable pub IsDistinct : Clients → Type 0
IsDistinct [] = Unit {0}
IsDistinct ((t, c) ∷ clients) = (find_client t clients ≡ none) × IsDistinct clients

pub remove-IsDistinct :
    (t : ℕ) (clients : Clients) → IsDistinct clients → IsDistinct (remove_client t clients)
unfolding IsDistinct remove_client
remove-IsDistinct t [] h = tt
remove-IsDistinct t ((k, c) ∷ clients) h = elim (Bool-cases (k == t)) [
  | inl e ↦ rw e (remove-IsDistinct t clients h.1)
  | inr e ↦
      rw e ((find-remove k t clients ∙ rw h.0 (ground arith)), remove-IsDistinct t clients h.1)
]

pub insert-IsDistinct :
    (t : ℕ) (c : Client) (clients : Clients)
    → IsDistinct clients
    → IsDistinct (insert_client t c clients)
unfolding IsDistinct insert_client
insert-IsDistinct t c clients h =
    (find-remove t t clients ∙ rw ((==_iff t t).1 refl), remove-IsDistinct t clients h)
