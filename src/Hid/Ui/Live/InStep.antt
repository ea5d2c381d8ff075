-- ===== src/Hid/Ui/Live/InStep.antt =====
-- src/main.rs and src/hid/ui_manager.rs: the core and the handheld controller agree.
use puddle.Base.{
  ℕ, arith, ◌≡◌, ◌∙◌, ap, sym, refl, true, false, none, some, List, [], ◌∷◌, inl, inr, Bool-cases,
}
use puddle.Base.Exec.{Result, ok, ◌>>=◌, ◌>>◌}
use puddle.Messages.{
  MotionCommand, write_access_result, hid, ClientMessage, request_write_access, upsert_command_set,
}
use puddle.Core.Manager.{Core, CoreManager, CoreError, is_holder, with_ui, send, set_holder}
use puddle.Core.Manager.Keeps.{Keeps-seq, is_holder_lem, send-Keeps, update_core-then}
use puddle.Core.Access.{can_take_write_access, announce}
use puddle.Core.Access
use puddle.Core.Event.Effect.Handlers.{announce-Keeps}
use puddle.Core.Event.{handle_message, handle_messages, handle_input}
use puddle.Core.Event.Effect.{IsHolder}
use puddle.Core.Event.Sync.Limits.{IsSound}
use puddle.Hid.Messages.{InputReport}
use puddle.Hid.Ui.{Commands, to_vec}
use puddle.Hid.Ui.Variables.{Scale}
use puddle.Hid.Ui.Report.{UiManager, UiError, inputs_of, process_input_report, hid_ui}
use puddle.Hid.Ui.Replay.{replay, replay_one, inputs_of-IsCarried}
use puddle.Hid.Ui.Live.{IsReached, Live}
use puddle.Hid.Ui.Live.Answers.{handle_message-Fine}
use puddle.Hid.Ui.Live.Reports.{inputs_of-FromUi, report_held, report_claims, handle_messages-held}

can_take-hid : (k : Core) → can_take_write_access k hid ≡ true
unfolding can_take_write_access
can_take-hid k = ground arith

module _ (scale : Scale) where
  -- Both ends can be reached, and while the handheld controller holds write access the active
  -- commands are those of its user interface.
  pub record InStep (s : CoreManager (hid_ui scale)) : Type 0 where
    pub commands : Commands
    pub live : Live scale commands s
    pub agrees : IsHolder hid s.core → s.core.active_command_set.1 ≡ to_vec commands

  -- What the input of the controller leaves: success, write access and agreement.
  abbrev Leaves : Result (CoreError (hid_ui scale)) (Unit {0}) × CoreManager (hid_ui scale) → Type 0
  Leaves after = (after.0 ≡ ok tt) × (InStep after.1 × IsHolder hid after.1.core)

  -- The core goes on with the messages, and with the user interface as the report leaves it.
  with_ui_runs :
      (r : Result UiError (List ClientMessage) × UiManager) (messages : List ClientMessage)
      (s : CoreManager (hid_ui scale))
      → r.0 ≡ ok messages
      → (with_ui (hid_ui scale) (λ _. r) r.1 >>= handle_messages (hid_ui scale)) s
        ≡ handle_messages (hid_ui scale) messages (record s { hid_ui = some r.1 })
  with_ui_runs r messages s e = rw e refl

  handle_input_runs :
      (report : InputReport) (u : UiManager) (messages : List ClientMessage)
      (s : CoreManager (hid_ui scale))
      → s.hid_ui ≡ some u
      → (process_input_report scale report s.core.limits s.core.core_state u).0 ≡ ok messages
      → handle_input (hid_ui scale) report s
        ≡ handle_messages (hid_ui scale) messages (record s {
          hid_ui = some (process_input_report scale report s.core.limits s.core.core_state u).1;
        })
  unfolding handle_input
  handle_input_runs report u messages s has_ui e =
      rw (has_ui, handle_input)
        (with_ui_runs (process_input_report scale report s.core.limits s.core.core_state u) messages
          s e)

  -- The ends after a report.
  with_new_ui :
      (c d : Commands) (u : UiManager) (s : CoreManager (hid_ui scale))
      → Live scale c s
      → IsReached d u
      → Live scale d (record s { hid_ui = some u })
  with_new_ui c d u s live reached = record {
    ui = u;
    has_ui = refl;
    reached = reached;
    server = live.server;
    has_server = live.has_server;
    listens = live.listens;
  }

  handle_input_held :
      (report : InputReport) (s : CoreManager (hid_ui scale)) (t : InStep s)
      → is_holder s.core.core_state.write_access_holder hid ≡ true
      → Leaves (handle_input (hid_ui scale) report s)
  handle_input_held report s t e =
      let u = t.live.ui in
      let i = inputs_of s.core.limits s.core.core_state report u.motion_commands u.holding_start in
      let held = is_holder_lem _ hid e in
      let (sent, reached) =
        report_held scale report s.core.limits s.core.core_state t.commands u t.live.reached e in
      let live' = with_new_ui t.commands i.commands _ s t.live reached in
      let (fine, (live'', (active, held'))) =
        handle_messages-held scale i.messages i.commands _
          (inputs_of-FromUi s.core.limits s.core.core_state report u.motion_commands
            u.holding_start)
          live' held in
      let carried =
        inputs_of-IsCarried s.core.limits s.core.core_state report u.motion_commands
          u.holding_start in
      let before = t.agrees held ∙ ap to_vec (sym t.live.reached.commands) in
      rw (handle_input_runs report u i.messages s t.live.has_ui sent) (
        fine,
        (
          record {
            commands = i.commands;
            live = live'';
            agrees = λ _. active ∙ ap (replay i.messages) before ∙ carried;
          },
          held',
        ),
      )

  -- The handheld controller always gets write access.
  request_hid :
      (seq : ℕ) (s : CoreManager (hid_ui scale))
      → IsHolder hid (handle_message (hid_ui scale) hid (request_write_access seq) s).1.core
  unfolding handle_message Access.request_write_access
  request_hid seq s =
      let previous = s.core.core_state.write_access_holder in
      let granted = write_access_result seq true (some hid) in
      let answers =
        announce (hid_ui scale) hid previous >> send (hid_ui scale) (some hid) granted in
      rw
        (
          can_take-hid s.core,
          update_core-then (hid_ui scale) (set_holder (some hid)) answers s (
              Keeps-seq (hid_ui scale) (announce (hid_ui scale) hid previous)
                (send (hid_ui scale) (some hid) granted)
                (announce-Keeps (hid_ui scale) hid previous)
                (send-Keeps (hid_ui scale) (some hid) granted)),
        )
        refl

  claim :
      (c : Commands) (commands : List MotionCommand) (s : CoreManager (hid_ui scale))
      → Live scale c s
      → let messages = request_write_access 0 ∷ upsert_command_set 0 none none commands ∷ [] in
        let after = handle_messages (hid_ui scale) messages s in
        (after.0 ≡ ok tt)
        × (Live scale c after.1
            × ((after.1.core.active_command_set.1 ≡ commands) × IsHolder hid after.1.core))
  unfolding handle_messages replay replay_one
  claim c commands s live =
      let (fine, live') = handle_message-Fine scale hid (request_write_access 0) c s live in
      let rest =
        handle_messages-held scale (upsert_command_set 0 none none commands ∷ []) c
          (handle_message (hid_ui scale) hid (request_write_access 0) s).1 (tt, tt) live'
          (request_hid 0 s) in
      rw fine rest

  handle_input_claims :
      (report : InputReport) (s : CoreManager (hid_ui scale)) (t : InStep s)
      → is_holder s.core.core_state.write_access_holder hid ≡ false
      → Leaves (handle_input (hid_ui scale) report s)
  handle_input_claims report s t e =
      let u = t.live.ui in
      let claims =
        report_claims scale report s.core.limits s.core.core_state t.commands u t.live.reached e in
      let live' = with_new_ui t.commands t.commands u s t.live t.live.reached in
      let (fine, (live'', (active, held))) =
        claim t.commands (to_vec u.motion_commands) (record s { hid_ui = some u }) live' in
      rw
        (
          handle_input_runs report u
              (request_write_access 0
                ∷ upsert_command_set 0 none none (to_vec u.motion_commands)
                ∷ [])
              s t.live.has_ui (ap (λ r. r.0) claims),
          claims,
        )
        (
          fine,
          (
            record {
              commands = t.commands;
              live = live'';
              agrees = λ _. active ∙ ap to_vec t.live.reached.commands;
            },
            held,
          ),
        )

  pub handle_input-Leaves :
      (report : InputReport) (s : CoreManager (hid_ui scale))
      → InStep s
      → Leaves (handle_input (hid_ui scale) report s)
  handle_input-Leaves report s t =
      elim (Bool-cases (is_holder s.core.core_state.write_access_holder hid)) [
        | inl e ↦ handle_input_held report s t e
        | inr e ↦ handle_input_claims report s t e
      ]

  -- Where the limits are not negative (the source's clamp panics otherwise) and the controllers can be
  -- reached and agree with the core, every input report of the handheld controller is handled without
  -- an error; afterwards it holds write access, whoever held it before, and the active commands are
  -- those of its user interface.
  pub handle_input-InStep :
      (report : InputReport) (s : CoreManager (hid_ui scale))
      → IsSound s.core.limits
      → InStep s
      → ((handle_input (hid_ui scale) report s).0 ≡ ok tt)
        × (InStep (handle_input (hid_ui scale) report s).1
            × IsHolder hid (handle_input (hid_ui scale) report s).1.core)
  handle_input-InStep report s _ t = handle_input-Leaves report s t
