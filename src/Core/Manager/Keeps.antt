-- ===== src/Core/Manager/Keeps.antt =====
-- What leaves the core's own state alone: everything that is sent.
use puddle.Base.{
  ◌≡◌, refl, ◌∙◌, Option, none, some, true, inl, inr, Bool-cases, Option-cases, ℕ, ==_iff,
}
use puddle.Base.Exec.{Result, ok, err, ◌>>◌, continue, pure, raise}
use puddle.Messages.{ControllerId, hid, web_socket, CoreMessage}
use puddle.Core.Manager.{
  HidUi, Core, update_core, CoreManager, CoreError, hid_not_enabled, web_socket_not_enabled, Act,
  send_hid, send_web_socket, send, is_holder,
}

pub is_holder_lem :
    (holder : Option ControllerId) (id : ControllerId)
    → is_holder holder id ≡ true
    → holder ≡ some id
unfolding is_holder
is_holder_lem (some hid) hid h = refl
is_holder_lem (some (web_socket a)) (web_socket b) h = rw ((==_iff a b).0 h)
is_holder_lem _ _ h = cc

pub is_holder_self : (id : ControllerId) → is_holder (some id) id ≡ true
unfolding is_holder
is_holder_self hid = refl
is_holder_self (web_socket a) = (==_iff a a).1 refl

module _ (ui : HidUi) where
  abbrev pub Keeps : Act ui (Unit {0}) → Type 0
  Keeps m = (s : CoreManager ui) → (m s).1.core ≡ s.core

  continue-Keeps :
      (r : Result (CoreError ui) (Unit {0})) (n : Act ui (Unit {0})) (s t : CoreManager ui)
      → Keeps n
      → t.core ≡ s.core
      → (continue r (λ _. n) t).1.core ≡ s.core
  continue-Keeps (ok a) n s t h e = h t ∙ e
  continue-Keeps (err a) n s t h e = e

  pub Keeps-seq : (m n : Act ui (Unit {0})) → Keeps m → Keeps n → Keeps (m >> n)
  Keeps-seq m n hm hn s = continue-Keeps (m s).0 n s (m s).1 hn (hm s)

  send_hid-Keeps :
      (message : CoreMessage) (disabled : Act ui (Unit {0}))
      → Keeps disabled
      → Keeps (send_hid ui message disabled)
  unfolding send_hid
  send_hid-Keeps message disabled h s = elim (Option-cases s.hid_ui) [
    | inl e ↦ rw (e, send_hid) (h s)
    | inr (u, e) ↦ rw (e, send_hid)
  ]

  send_web_socket-Keeps :
      (token : Option ℕ) (message : CoreMessage) (disabled : Act ui (Unit {0}))
      → Keeps disabled
      → Keeps (send_web_socket ui token message disabled)
  unfolding send_web_socket
  send_web_socket-Keeps token message disabled h s = elim (Option-cases s.websocket_server) [
    | inl e ↦ rw (e, send_web_socket) (h s)
    | inr (server, e) ↦ elim (Bool-cases server.is_open) [
      | inl listens ↦ rw (e, send_web_socket, listens)
      | inr closed ↦ rw (e, send_web_socket, closed)
    ]
  ]

  pub send-Keeps : (d : Option ControllerId) (message : CoreMessage) → Keeps (send ui d message)
  unfolding send
  send-Keeps (some hid) message = send_hid-Keeps message (raise hid_not_enabled) (λ s. refl)
  send-Keeps (some (web_socket token)) message =
      send_web_socket-Keeps (some token) message (raise web_socket_not_enabled) (λ s. refl)
  send-Keeps none message =
      Keeps-seq (send_hid ui message (pure tt)) (send_web_socket ui none message (pure tt))
        (send_hid-Keeps message (pure tt) (λ s. refl))
        (send_web_socket-Keeps none message (pure tt) (λ s. refl))

  pub send_with-Keeps :
      (d : Option ControllerId) (message : CoreManager ui → CoreMessage)
      → Keeps (λ s. send ui d (message s) s)
  send_with-Keeps d message s = send-Keeps d (message s) s

  -- Two messages, the later computed from the state that the earlier leaves.
  send_two-Keeps :
      (d e : Option ControllerId) (first second : CoreManager ui → CoreMessage)
      → Keeps ((λ s. send ui d (first s) s) >> (λ s. send ui e (second s) s))
  send_two-Keeps d e first second =
      Keeps-seq (λ s. send ui d (first s) s) (λ s. send ui e (second s) s) (send_with-Keeps d first)
        (send_with-Keeps e second)

  -- An update of the core, and what is sent then.
  pub update_core-then :
      (f : Core → Core) (m : Act ui (Unit {0})) (s : CoreManager ui)
      → Keeps m
      → ((update_core ui f >> m) s).1.core ≡ f s.core
  update_core-then f m s h = h (record s { core = f s.core })

  pub update_core-two :
      (f : Core → Core) (d e : Option ControllerId) (first second : CoreManager ui → CoreMessage)
      (s : CoreManager ui)
      → ((update_core ui f >> ((λ t. send ui d (first t) t) >> (λ t. send ui e (second t) t)))
          s).1.core
        ≡ f s.core
  update_core-two f d e first second s =
      update_core-then f ((λ t. send ui d (first t) t) >> (λ t. send ui e (second t) t)) s
        (send_two-Keeps d e first second)
