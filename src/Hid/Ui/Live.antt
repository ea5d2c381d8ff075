-- ===== src/Hid/Ui/Live.antt =====
-- src/hid/ui_manager.rs and src/main.rs together: while the controllers can be reached, nothing that
-- the core sends fails, and nothing that it sends changes the commands of the user interface.
pub mod Answers
pub mod Granted
pub mod Reports
pub mod InStep
pub mod Runs
use puddle.Base.{
  ℕ, ◌≡◌, ◌∙◌, refl, Bool, true, false, Option, none, some, inl, inr, Bool-cases, Option-cases,
  if◌then◌else◌,
}
use puddle.Base.Exec.{Result, ok, err, continue, ◌>>◌, pure, raise}
use puddle.Messages.{ControllerId, hid, web_socket, CoreMessage, connected, ack, not_writer}
use puddle.Core.Manager.{
  HidUi, Core, CoreManager, CoreError, WebSocketServer, Act, is_holder, with_ui, update_core, send,
  send_hid, send_web_socket, hid_not_enabled, web_socket_not_enabled,
}
use puddle.Core.Access.{for_holder}
use puddle.Hid.Ui.{Commands}
use puddle.Hid.Ui.Variables.{Scale}
use puddle.Hid.Ui.Report.{UiManager, UiError, send_report, process_core_message, hid_ui}

-- A user interface with these commands whose controller can be reached.
pub record IsReached (c : Commands) (u : UiManager) : Type 0 where
  pub is_open : u.io.is_open ≡ true
  pub commands : u.motion_commands ≡ c

process_core_message-IsReached :
    (message : CoreMessage) (c : Commands) (u : UiManager)
    → IsReached c u
    → ((process_core_message message u).0 ≡ ok tt) × IsReached c (process_core_message message u).1
unfolding process_core_message send_report
process_core_message-IsReached (connected id limits core) c u h =
    rw h.is_open (refl, record { is_open = refl; commands = h.commands })
process_core_message-IsReached _ c u h = (refl, h)

module _ (scale : Scale) where
  -- Both ends of the core can be reached, and the user interface has these commands.
  pub record Live (c : Commands) (s : CoreManager (hid_ui scale)) : Type 0 where
    pub ui : UiManager
    pub has_ui : s.hid_ui ≡ some ui
    pub reached : IsReached c ui
    pub server : WebSocketServer
    pub has_server : s.websocket_server ≡ some server
    pub listens : server.is_open ≡ true

  -- An action that succeeds and leaves the ends as they are.
  abbrev pub Fine : Act (hid_ui scale) (Unit {0}) → Type 0
  Fine m =
      (c : Commands) (s : CoreManager (hid_ui scale))
      → Live c s
      → ((m s).0 ≡ ok tt) × Live c (m s).1

  pub Fine-pure : Fine (pure tt)
  Fine-pure c s live = (refl, live)

  pub Fine-seq : (m n : Act (hid_ui scale) (Unit {0})) → Fine m → Fine n → Fine (m >> n)
  Fine-seq m n hm hn c s live = let (e, live') = hm c s live in rw e (hn c (m s).1 live')

  pub Fine-update : (f : Core → Core) → Fine (update_core (hid_ui scale) f)
  Fine-update f c s live = (
    refl,
    record {
      ui = live.ui;
      has_ui = live.has_ui;
      reached = live.reached;
      server = live.server;
      has_server = live.has_server;
      listens = live.listens;
    },
  )

  pub Fine-if :
      (b : Bool) (m n : Act (hid_ui scale) (Unit {0})) → Fine m → Fine n → Fine (if b then m else n)
  Fine-if true m n hm hn = hm
  Fine-if false m n hm hn = hn

  with_ui-Fine :
      {c : Commands} (r : Result UiError (Unit {0}) × UiManager) (s : CoreManager (hid_ui scale))
      (server : WebSocketServer)
      → (r.0 ≡ ok tt) × IsReached c r.1
      → s.websocket_server ≡ some server
      → server.is_open ≡ true
      → ((with_ui (hid_ui scale) (λ _. r) r.1 s).0 ≡ ok tt)
        × Live c (with_ui (hid_ui scale) (λ _. r) r.1 s).1
  with_ui-Fine r s server (e, reached) has_server listens = rw e (
    refl,
    record {
      ui = r.1;
      has_ui = refl;
      reached = reached;
      server = server;
      has_server = has_server;
      listens = listens;
    },
  )

  send_hid-Fine :
      (message : CoreMessage) (disabled : Act (hid_ui scale) (Unit {0}))
      → Fine (send_hid (hid_ui scale) message disabled)
  unfolding send_hid
  send_hid-Fine message disabled c s live =
      rw (live.has_ui, send_hid)
        (with_ui-Fine (process_core_message message live.ui) s live.server
          (process_core_message-IsReached message c live.ui live.reached) live.has_server
          live.listens)

  send_web_socket-Fine :
      (token : Option ℕ) (message : CoreMessage) (disabled : Act (hid_ui scale) (Unit {0}))
      → Fine (send_web_socket (hid_ui scale) token message disabled)
  unfolding send_web_socket
  send_web_socket-Fine token message disabled c s live =
      rw (live.has_server, send_web_socket, live.listens)
        (
          refl,
          record {
            ui = live.ui;
            has_ui = live.has_ui;
            reached = live.reached;
            server = _;
            has_server = refl;
            listens = refl;
          },
        )

  pub send-Fine :
      (d : Option ControllerId) (message : CoreMessage) → Fine (send (hid_ui scale) d message)
  unfolding send
  send-Fine (some hid) message = send_hid-Fine message (raise hid_not_enabled)
  send-Fine (some (web_socket token)) message =
      send_web_socket-Fine (some token) message (raise web_socket_not_enabled)
  send-Fine none message =
      Fine-seq (send_hid (hid_ui scale) message (pure tt))
        (send_web_socket (hid_ui scale) none message (pure tt)) (send_hid-Fine message (pure tt))
        (send_web_socket-Fine none message (pure tt))

  -- A test of the state, and a message made of it.
  pub Fine-test :
      (b : CoreManager (hid_ui scale) → Bool) (m n : Act (hid_ui scale) (Unit {0}))
      → Fine m
      → Fine n
      → Fine (λ s. if b s then m s else n s)
  Fine-test b m n hm hn c s live = elim (Bool-cases (b s)) [
    | inl e ↦ rw e (hm c s live)
    | inr e ↦ rw e (hn c s live)
  ]

  pub Fine-with :
      (d : Option ControllerId) (message : CoreManager (hid_ui scale) → CoreMessage)
      → Fine (λ s. send (hid_ui scale) d (message s) s)
  Fine-with d message c s live = send-Fine d (message s) c s live

  pub Fine-holder :
      (id : ControllerId) (seq : ℕ) (m : Act (hid_ui scale) (Unit {0}))
      → Fine m
      → Fine (for_holder (hid_ui scale) id seq m)
  Fine-holder id seq m hm =
      Fine-test (λ s. is_holder s.core.core_state.write_access_holder id) m
        (send (hid_ui scale) (some id) (ack seq false (some not_writer))) hm
        (send-Fine (some id) (ack seq false (some not_writer)))

  -- An update of the core, an announcement and an answer.
  pub Fine-three :
      (f : Core → Core) (d e : Option ControllerId)
      (first second : CoreManager (hid_ui scale) → CoreMessage)
      → Fine (
          update_core (hid_ui scale) f
          >> ((λ t. send (hid_ui scale) d (first t) t)
              >> (λ t. send (hid_ui scale) e (second t) t)))
  Fine-three f d e first second = Fine-seq (update_core (hid_ui scale) f) _ (Fine-update f) (
      Fine-seq (λ t. send (hid_ui scale) d (first t) t) (λ t. send (hid_ui scale) e (second t) t)
        (Fine-with d first) (Fine-with e second))

  pub Fine-two :
      (f : Core → Core) (d : Option ControllerId) (message : CoreMessage)
      → Fine (update_core (hid_ui scale) f >> send (hid_ui scale) d message)
  Fine-two f d message =
      Fine-seq (update_core (hid_ui scale) f) (send (hid_ui scale) d message) (Fine-update f)
        (send-Fine d message)
