-- ===== src/Hid/Ui/Report/Tuned.antt =====
-- src/hid/ui_manager.rs: the commands that the user interface keeps, over whole reports.
use puddle.Base.{
  ℕ, zero, suc, ◌≡◌, refl, Bool, List, [], ◌∷◌, ◌++◌, inl, inr, arith, Bool-cases, if◌then◌else◌,
}
use puddle.Base.Int.{pos, ◌≤ℤ◌}
use puddle.Base.Exec.{ok, err, continue, pure, ◌>>◌}
use puddle.Messages.{SystemLimits, CoreState, CoreMessage, connected, DriveState, hid}
use puddle.Core.Manager.{is_holder}
use puddle.Hid.Messages.{
  OutputReport, variable_update, VariableEntry, InputReport, HidInputEvent, button_click,
  button_hold_start, button_hold_end,
}
use puddle.Hid.Ui.{Commands, turn_all}
use puddle.Hid.Ui.Variables.{Scale, retain, screen_variables}
use puddle.Hid.Ui.Turning.{IsTuned, turn_all-IsTuned}
use puddle.Hid.Ui.Report.{
  UiManager, UiAct, Inputs, IoManager, new_ui, click, input_event, input_events, inputs_of,
  send_report, send_variables, show, process_core_message, process_input_report,
}

module _ (limits : SystemLimits) (h : pos 0 ≤ℤ limits.position) where
  -- A new user interface has tuned commands.
  new_ui-IsTuned : (io : IoManager) → IsTuned limits (new_ui io).motion_commands
  unfolding new_ui
  new_ui-IsTuned io = record {
    start = omega arith;
    order = omega arith;
    end = h;
    velocity = refl;
    acceleration = refl;
    deceleration = refl;
  }

  click-IsTuned :
      (state : DriveState) (encoder : ℕ) (i : Inputs)
      → IsTuned limits i.commands
      → IsTuned limits (click state encoder i).commands
  unfolding click
  click-IsTuned state zero i t = t
  click-IsTuned state (suc zero) i t = t
  click-IsTuned state (suc (suc zero)) i t = t
  click-IsTuned state (suc (suc (suc zero))) i t = record {
    start = omega arith;
    order = omega arith;
    end = h;
    velocity = refl;
    acceleration = refl;
    deceleration = refl;
  }
  click-IsTuned state (suc (suc (suc (suc n)))) i t = t

  input_event-IsTuned :
      (state : DriveState) (event : HidInputEvent) (i : Inputs)
      → IsTuned limits i.commands
      → IsTuned limits (input_event state event i).commands
  unfolding input_event
  input_event-IsTuned state (button_click encoder) i t = click-IsTuned state encoder i t
  input_event-IsTuned state (button_hold_start zero) i t = t
  input_event-IsTuned state (button_hold_end zero) i t = t
  input_event-IsTuned state _ i t = t

  input_events-IsTuned :
      (state : DriveState) (events : List HidInputEvent) (i : Inputs)
      → IsTuned limits i.commands
      → IsTuned limits (input_events state events i).commands
  unfolding input_events
  input_events-IsTuned state [] i t = t
  input_events-IsTuned state (event ∷ events) i t =
      input_events-IsTuned state events (input_event state event i)
        (input_event-IsTuned state event i t)

  inputs_of-IsTuned :
      (core : CoreState) (report : InputReport) (c : Commands) (holding : Bool)
      → IsTuned limits c
      → IsTuned limits (inputs_of limits core report c holding).commands
  unfolding inputs_of
  inputs_of-IsTuned core report c holding t =
      let turned = turn_all limits holding 0 report.encoder_deltas c in
      input_events-IsTuned core.drive_state report.events
        (record {
          commands = turned.0;
          holding_start = holding;
          messages = turned.1;
          variables = [];
        })
        (turn_all-IsTuned limits h holding 0 report.encoder_deltas c t)

send_report-commands :
    (report : OutputReport) (u : UiManager)
    → (send_report report u).1.motion_commands ≡ u.motion_commands
unfolding send_report
send_report-commands report u = elim (Bool-cases u.io.is_open) [
  | inl e ↦ rw e refl
  | inr e ↦ rw e refl
]

send_variables-commands :
    (variables : List VariableEntry) (u : UiManager)
    → (send_variables variables u).1.motion_commands ≡ u.motion_commands
unfolding send_variables
send_variables-commands [] u = refl
send_variables-commands (v ∷ variables) u = send_report-commands (variable_update (v ∷ variables)) u

show-commands :
    (scale : Scale) (limits : SystemLimits) (core : CoreState) (i : Inputs) (u : UiManager)
    → (show scale limits core i u).1.motion_commands ≡ i.commands
unfolding show
show-commands scale limits core i u =
    let kept =
      retain (i.variables ++ screen_variables scale limits core i.commands i.holding_start)
        u.last_sent_variables in
    send_variables-commands kept.0 (record u {
      motion_commands = i.commands;
      holding_start = i.holding_start;
      last_sent_variables = kept.1;
    })

process_core_message-commands :
    (message : CoreMessage) (u : UiManager)
    → (process_core_message message u).1.motion_commands ≡ u.motion_commands
unfolding process_core_message send_report
process_core_message-commands (connected id limits core) u = elim (Bool-cases u.io.is_open) [
  | inl e ↦ rw e refl
  | inr e ↦ rw e refl
]
process_core_message-commands _ u = refl

state_after :
    {A : Type 0} (m : UiAct (Unit {0})) (a : A) (u : UiManager) → ((m >> pure a) u).1 ≡ (m u).1
state_after m a u = elim (m u).0 as (λ r. (continue r (λ _. pure a) (m u).1).1 ≡ (m u).1) [
  | ok t ↦ refl
  | err e ↦ refl
]

-- After a report the interface's commands are those that the report's inputs leave, where it holds
-- write access, and unchanged where it does not: also when the report cannot be sent.
pub process_input_report-commands :
    (scale : Scale) (report : InputReport) (limits : SystemLimits) (core : CoreState)
    (u : UiManager)
    → (process_input_report scale report limits core u).1.motion_commands ≡ (
        if is_holder core.write_access_holder hid
        then (inputs_of limits core report u.motion_commands u.holding_start).commands
        else u.motion_commands)
unfolding process_input_report
process_input_report-commands scale report limits core u =
    let i = inputs_of limits core report u.motion_commands u.holding_start in
    elim (Bool-cases (is_holder core.write_access_holder hid)) [
      | inl e ↦
          rw (e, state_after (show scale limits core i) i.messages u)
            (show-commands scale limits core i u)
      | inr e ↦ rw e refl
    ]

-- What happens to the user interface: a message of the core, or a report with the state of the core.
pub data UiEvent : Type 0 where
  core_message : CoreMessage → UiEvent
  input_report : InputReport → CoreState → UiEvent

unfoldable pub ui_step : Scale → SystemLimits → UiEvent → UiManager → UiManager
ui_step scale limits (core_message message) u = (process_core_message message u).1
ui_step scale limits (input_report report core) u =
    (process_input_report scale report limits core u).1

unfoldable pub ui_run : Scale → SystemLimits → List UiEvent → UiManager → UiManager
unfolding ui_step
ui_run scale limits [] u = u
ui_run scale limits (event ∷ events) u = ui_run scale limits events (ui_step scale limits event u)

module _ (scale : Scale) (limits : SystemLimits) (h : pos 0 ≤ℤ limits.position) where
  ui_step-IsTuned :
      (event : UiEvent) (u : UiManager)
      → IsTuned limits u.motion_commands
      → IsTuned limits (ui_step scale limits event u).motion_commands
  unfolding ui_step
  ui_step-IsTuned (core_message message) u t = rw (process_core_message-commands message u) t
  ui_step-IsTuned (input_report report core) u t =
      rw (process_input_report-commands scale report limits core u)
        (elim (Bool-cases (is_holder core.write_access_holder hid)) [
          | inl e ↦
              rw e (inputs_of-IsTuned limits h core report u.motion_commands u.holding_start t)
          | inr e ↦ rw e t
        ])

  ui_run_from :
      (events : List UiEvent) (u : UiManager)
      → IsTuned limits u.motion_commands
      → IsTuned limits (ui_run scale limits events u).motion_commands
  unfolding ui_run
  ui_run_from [] u t = t
  ui_run_from (event ∷ events) u t =
      ui_run_from events (ui_step scale limits event u) (ui_step-IsTuned event u t)

  -- With a limit on the position that is not negative, whatever messages and input reports follow,
  -- with write access or without and whether the controller can be reached or not, the commands that
  -- a new user interface keeps stay tuned: both positions are from 0 to the limit, the start is not
  -- after the end, and the two commands agree in velocity, acceleration and deceleration.
  pub ui_run-IsTuned :
      (io : IoManager) (events : List UiEvent)
      → IsTuned limits (ui_run scale limits events (new_ui io)).motion_commands
  ui_run-IsTuned io events = ui_run_from events (new_ui io) (new_ui-IsTuned limits h io)
