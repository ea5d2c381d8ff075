-- ===== src/Hid/Ui/Live/Runs.antt =====
-- src/main.rs and src/hid/ui_manager.rs: the core and the handheld controller agree in every run.
use puddle.Base.{
  ℕ, ◌≡◌, ◌∙◌, ap, sym, refl, true, false, none, some, List, [], ◌∷◌, inl, inr, All, Bool-cases,
}
use puddle.Base.Exec.{Result, ok}
use puddle.Messages.{SystemLimits, ControllerId, hid, web_socket, ClientMessage, connected, state}
use puddle.Core.Manager.{
  Texts, CoreManager, CoreError, WebSocketServer, is_holder, update_core, send, new_manager,
}
use puddle.Core.Manager.Keeps.{is_holder_lem, send-Keeps, send_with-Keeps, update_core-then}
use puddle.Core.Event.{
  CoreEvent, controller_connected, controller_disconnected, message, drive_state_updated,
  hid_input_report, handle_message, handle_event, controller_gone, run, follow_drive,
}
use puddle.Core.Event.Effect.{IsHolder}
use puddle.Core.Event.Effect.Rights.{handle_message-SameDrive, handle_message-HolderStep}
use puddle.Core.Event.Sync.Limits.{IsSound, handle_event-disconnect}
use puddle.Hid.Ui.Variables.{Scale}
use puddle.Hid.Ui.Report.{IoManager, new_ui, hid_ui}
use puddle.Hid.Ui.Live.{Live, send-Fine, Fine-seq, Fine-update, Fine-with}
use puddle.Hid.Ui.Live.Answers.{handle_message-Fine, gone-Fine}
use puddle.Hid.Ui.Live.InStep.{InStep, handle_input-Leaves}

-- The handheld controller's messages reach the core with its input reports only.
abbrev pub IsClientEvent : CoreEvent → Type 0
IsClientEvent (message hid _) = ⊥
IsClientEvent _ = Unit {0}

hid_other : (token : ℕ) → some hid ≡ some (web_socket token) → ⊥
hid_other token e = cc

some-none : (id : ControllerId) → some id ≡ none → ⊥
some-none id e = cc

module _ (scale : Scale) where
  abbrev Stays : CoreManager (hid_ui scale) → CoreManager (hid_ui scale) → Type 0
  Stays s s' =
      IsHolder hid s'.core
      → IsHolder hid s.core × (s'.core.active_command_set.1 ≡ s.core.active_command_set.1)

  -- Agreement survives where write access is not taken by the controller and the set stays.
  Stays-InStep :
      (s s' : CoreManager (hid_ui scale)) (t : InStep scale s)
      → Live scale t.commands s'
      → Stays s s'
      → InStep scale s'
  Stays-InStep s s' t live stays = record {
    commands = t.commands;
    live = live;
    agrees = λ held'. let (held, same) = stays held' in same ∙ t.agrees held;
  }

  client_message :
      (token : ℕ) (m : ClientMessage) (s : CoreManager (hid_ui scale))
      → Stays s (handle_message (hid_ui scale) (web_socket token) m s).1
  client_message token m s held' =
      elim (handle_message-HolderStep (hid_ui scale) (web_socket token) m s) [
        | inl e ↦
            let held = sym e ∙ held' in
            let same =
              handle_message-SameDrive (hid_ui scale) (web_socket token) m s
                (λ taken. hid_other token (sym held ∙ taken)) in
            (held, ap (λ set. set.1) same.active)
        | inr (inl (_, e)) ↦ absurd (hid_other token (sym held' ∙ e))
        | inr (inr (_, e)) ↦ absurd (some-none hid (sym held' ∙ e))
      ]

  gone_other :
      (texts : Texts) (id : ControllerId) (s : CoreManager (hid_ui scale))
      → is_holder s.core.core_state.write_access_holder id ≡ false
      → (handle_event (hid_ui scale) texts (controller_disconnected id) s).1 ≡ s
  unfolding handle_event controller_gone
  gone_other texts id s e = rw e refl

  gone :
      (texts : Texts) (id : ControllerId) (s : CoreManager (hid_ui scale))
      → Stays s (handle_event (hid_ui scale) texts (controller_disconnected id) s).1
  gone texts id s held' = elim (Bool-cases (is_holder s.core.core_state.write_access_holder id)) [
    | inl e ↦
        let stopped = handle_event-disconnect (hid_ui scale) texts id s (is_holder_lem _ id e) in
        absurd (some-none hid (sym held' ∙ stopped.holder))
    | inr e ↦
        let same = gone_other texts id s e in
        (
          sym (ap (λ t. t.core.core_state.write_access_holder) same) ∙ held',
          ap (λ t. t.core.active_command_set.1) same,
        )
  ]

  -- An event is handled without an error and leaves the two in agreement.
  abbrev Handled :
      Result (CoreError (hid_ui scale)) (Unit {0}) × CoreManager (hid_ui scale) → Type 0
  Handled after = (after.0 ≡ ok tt) × InStep scale after.1

  handle_event-Handled :
      (texts : Texts) (event : CoreEvent) (s : CoreManager (hid_ui scale))
      → IsClientEvent event
      → InStep scale s
      → Handled (handle_event (hid_ui scale) texts event s)
  unfolding handle_event follow_drive
  handle_event-Handled texts (controller_connected id) s client t =
      let hello = connected id s.core.limits s.core.core_state in
      let (fine, live) = send-Fine scale (some id) hello t.commands s t.live in
      let same = send-Keeps (hid_ui scale) (some id) hello s in
      (
        fine,
        Stays-InStep s _ t live (λ held'. (
          sym (ap (λ k. k.core_state.write_access_holder) same) ∙ held',
          ap (λ k. k.active_command_set.1) same,
        )),
      )
  handle_event-Handled texts (controller_disconnected id) s client t =
      let (fine, live) = gone-Fine scale id t.commands s t.live in
      (fine, Stays-InStep s _ t live (gone texts id s))
  handle_event-Handled texts (message (web_socket token) m) s client t =
      let (fine, live) = handle_message-Fine scale (web_socket token) m t.commands s t.live in
      (fine, Stays-InStep s _ t live (client_message token m s))
  handle_event-Handled texts (message hid m) s client t = absurd client
  handle_event-Handled texts (drive_state_updated feedback) s client t =
      let news = λ (u : CoreManager (hid_ui scale)). state none u.core.core_state in
      let tell = λ (u : CoreManager (hid_ui scale)). send (hid_ui scale) none (news u) u in
      let (fine, live) =
        Fine-seq scale (update_core (hid_ui scale) (follow_drive texts feedback)) tell
          (Fine-update scale (follow_drive texts feedback)) (Fine-with scale none news) t.commands s
          t.live in
      let same =
        update_core-then (hid_ui scale) (follow_drive texts feedback) tell s
          (send_with-Keeps (hid_ui scale) none news) in
      (
        fine,
        Stays-InStep s _ t live (λ held'. (
          sym (ap (λ k. k.core_state.write_access_holder) same) ∙ held',
          ap (λ k. k.active_command_set.1) same,
        )),
      )
  handle_event-Handled texts (hid_input_report report) s client t =
      let (fine, (t', _)) = handle_input-Leaves scale report s t in (fine, t')

  run-Handled :
      (texts : Texts) (events : List CoreEvent) (s : CoreManager (hid_ui scale))
      → All IsClientEvent events
      → InStep scale s
      → Handled (run (hid_ui scale) texts events s)
  unfolding run
  run-Handled texts [] s clients t = (refl, t)
  run-Handled texts (event ∷ events) s clients t =
      let (fine, t') = handle_event-Handled texts event s clients.0 t in
      rw fine (run-Handled texts events (handle_event (hid_ui scale) texts event s).1 clients.1 t')

  -- Where the limits are not negative (the source's clamp panics otherwise), with a handheld
  -- controller and a WebSocket thread that both still receive, whatever events come,
  -- where messages come from WebSocket clients and the handheld controller's come with its reports,
  -- the core handles every one without an error; and afterwards, where the handheld controller holds
  -- write access, the active command set holds the two commands that its user interface shows.
  pub run-InStep :
      (texts : Texts) (limits : SystemLimits) (io : IoManager) (server : WebSocketServer)
      (events : List CoreEvent)
      → IsSound limits
      → io.is_open ≡ true
      → server.is_open ≡ true
      → All IsClientEvent events
      → let after =
          run
            (hid_ui scale)
            texts
            events
            (new_manager (hid_ui scale) limits (some (new_ui io)) (some server)) in
        (after.0 ≡ ok tt) × InStep scale after.1
  unfolding new_manager new_ui
  run-InStep texts limits io server events _ is_open listens clients =
      run-Handled texts events _ clients (record {
        commands = (new_ui io).motion_commands;
        live = record {
          ui = new_ui io;
          has_ui = refl;
          reached = record { is_open = is_open; commands = refl };
          server = server;
          has_server = refl;
          listens = listens;
        };
        agrees = λ held. absurd (some-none hid (sym held));
      })
