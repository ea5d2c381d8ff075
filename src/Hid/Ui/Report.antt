-- ===== src/Hid/Ui/Report.antt =====
-- src/hid/ui_manager.rs: `UiManager` itself, `process_core_message` and `process_input_report`.
pub mod Tuned
use puddle.Base.{
  ℕ, zero, suc, Bool, true, false, Option, none, some, List, [], ◌∷◌, ◌++◌, if◌then◌else◌,
}
use puddle.Base.Exec.{Result, ok, err, Exec, pure, ◌>>=◌, ◌>>◌}
use puddle.Messages.{
  DriveState, off, preparing, paused, moving, errored, SystemLimits, ControllerId, hid, CoreState,
  CoreMessage, connected, ClientMessage, request_write_access, upsert_command_set, set_drive_power,
  set_motion_state, acknowledge_error, MotionAction, resume, pause,
}
use puddle.Core.Manager.{HidUi, is_holder}
use puddle.Hid.Messages.{
  HidInputEvent, button_click, button_hold_start, button_hold_end, InputReport, OutputReport,
  screen_spec, variable_update, ScreenSpec, DisplayContent, text_lines, EncoderLabel, move_top,
  VariableEntry, hardware_control, reset,
}
use puddle.Hid.Ui.{Commands, default_command, to_vec, turn_all}
use puddle.Hid.Ui.Variables.{Sent, Scale, bytes, retain, screen_variables}

-- `IoManager`: what was sent to its thread, the newest first, and whether that still receives.
pub record IoManager : Type 0 where
  pub outbound : List OutputReport
  pub is_open : Bool

pub record UiManager : Type 0 where
  pub io : IoManager
  pub active_screen : ScreenSpec
  pub motion_commands : Commands
  pub last_sent_variables : Sent
  pub holding_start : Bool

abbrev pub default_commands : Commands
default_commands = (default_command, default_command)

-- `UiManager::new`
unfoldable pub new_ui : IoManager → UiManager
new_ui io = record {
  io = io;
  active_screen = record {
    screen_id = 1;
    encoder_labels =
        record { primary = bytes "{10}"; secondary = bytes "{8}" }
        ∷ record { primary = bytes "{11}"; secondary = bytes "{9}" }
        ∷ record { primary = bytes "Speed"; secondary = bytes "Reboot" }
        ∷ record { primary = bytes "Accel."; secondary = bytes "Zero" }
        ∷ [];
    left_main =
        text_lines 0
          (bytes "Stroke" ∷ bytes "{0} to {1}" ∷ bytes "Speed  {2}" ∷ bytes "Accel. {3}" ∷ []);
    left_animation_type = move_top;
    left_animation_duration = 300;
    left_animation_delay = 0;
    right_main = text_lines 11 (bytes "{4}" ∷ bytes "{5} / {6}" ∷ bytes "{7}" ∷ []);
    right_animation_type = move_top;
    right_animation_duration = 300;
    right_animation_delay = 0;
  };
  motion_commands = default_commands;
  last_sent_variables = [];
  holding_start = false;
}

pub data UiError : Type 0 where
  io_gone : UiError

abbrev pub UiAct : Type 0 → Type 0
UiAct A = Exec UiManager UiError A

-- `IoManager::send_report`
unfoldable pub send_report : OutputReport → UiAct (Unit {0})
send_report report u =
    if u.io.is_open
    then (ok tt, record u { io = record u.io { outbound = report ∷ u.io.outbound } })
    else (err io_gone, u)

abbrev update_ui : (UiManager → UiManager) → UiAct (Unit {0})
update_ui f u = (ok tt, f u)

unfoldable pub process_core_message : CoreMessage → UiAct (Unit {0})
unfolding send_report
process_core_message (connected _ _ _) u =
    (do
      send_report (screen_spec u.active_screen)
      update_ui (λ u'. record u' { last_sent_variables = [] }))
      u
process_core_message _ u = (ok tt, u)

-- What the events of a report change: the commands, whether encoder 0 is held, the messages and
-- the variables to send.
pub record Inputs : Type 0 where
  pub commands : Commands
  pub holding_start : Bool
  pub messages : List ClientMessage
  pub variables : List VariableEntry

-- A click on encoder 0: power, or the error.
abbrev pub power_click : DriveState → List ClientMessage
power_click off = set_drive_power 0 true ∷ []
power_click preparing = set_drive_power 0 false ∷ []
power_click paused = set_drive_power 0 false ∷ []
power_click moving = set_drive_power 0 false ∷ []
power_click errored = acknowledge_error 0 ∷ []
power_click _ = []

-- A click on encoder 1.
abbrev pub motion_click : DriveState → List ClientMessage
motion_click paused = set_motion_state 0 resume ∷ []
motion_click moving = set_motion_state 0 pause ∷ []
motion_click _ = []

unfoldable pub click : DriveState → ℕ → Inputs → Inputs
click state zero i = record i { messages = i.messages ++ power_click state }
click state (suc zero) i = record i { messages = i.messages ++ motion_click state }
click state (suc (suc zero)) i = record i {
  variables = i.variables ++ (hardware_control reset ∷ []);
}
click state (suc (suc (suc zero))) i = record i {
  commands = default_commands;
  messages = i.messages ++ (upsert_command_set 0 none none (to_vec default_commands) ∷ []);
}
click state _ i = i

unfoldable pub input_event : DriveState → HidInputEvent → Inputs → Inputs
unfolding click
input_event state (button_click encoder_id) i = click state encoder_id i
input_event state (button_hold_start zero) i = record i { holding_start = true }
input_event state (button_hold_end zero) i = record i { holding_start = false }
input_event state _ i = i

unfoldable pub input_events : DriveState → List HidInputEvent → Inputs → Inputs
unfolding input_event
input_events state [] i = i
input_events state (event ∷ events) i = input_events state events (input_event state event i)

-- The encoders, then the events.
unfoldable pub inputs_of : SystemLimits → CoreState → InputReport → Commands → Bool → Inputs
unfolding turn_all input_events
inputs_of limits core report commands holding_start =
    let (c, messages) = turn_all limits holding_start 0 report.encoder_deltas commands in
    input_events core.drive_state report.events
      (record { commands = c; holding_start = holding_start; messages = messages; variables = [] })

-- Nothing is sent when there is nothing new.
unfoldable pub send_variables : List VariableEntry → UiAct (Unit {0})
unfolding send_report
send_variables [] = pure tt
send_variables (v ∷ variables) = send_report (variable_update (v ∷ variables))

unfoldable pub show : Scale → SystemLimits → CoreState → Inputs → UiAct (Unit {0})
unfolding send_variables retain
show scale limits core i u =
    let (variables, sent) =
      retain (i.variables ++ screen_variables scale limits core i.commands i.holding_start)
        u.last_sent_variables in
    send_variables variables (record u {
      motion_commands = i.commands;
      holding_start = i.holding_start;
      last_sent_variables = sent;
    })

unfoldable pub process_input_report :
    Scale → InputReport → SystemLimits → CoreState → UiAct (List ClientMessage)
unfolding inputs_of show
process_input_report scale report limits core u =
    let i = inputs_of limits core report u.motion_commands u.holding_start in
    if is_holder core.write_access_holder hid
    then (show scale limits core i >> pure i.messages) u
    else (
      ok (request_write_access 0 ∷ upsert_command_set 0 none none (to_vec u.motion_commands) ∷ []),
      u,
    )

-- The interface of the core.
abbrev pub hid_ui : Scale → HidUi
hid_ui scale = record {
  State = UiManager;
  Error = UiError;
  process_core_message = process_core_message;
  process_input_report = process_input_report scale;
}
