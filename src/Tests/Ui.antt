-- ===== src/Tests/Ui.antt =====
-- Concrete reports of the handheld controller.
use puddle.Base.{◌+◌, ◌%◌, ◌==◌, ◌≡◌, refl, true, false, none, some, List, [], ◌∷◌, arith}
use puddle.Base.Exec.{ok}
use puddle.Base.Int.{pos, negsuc, ◌+ℤ◌, clamp}
use puddle.Messages.{CoreState, web_socket, request_write_access}
use puddle.Core.Manager.{
  CoreManager, new_core, new_manager, default_core_state, set_holder, WebSocketServer,
}
use puddle.Core.Event.{
  CoreEvent, hid_input_report, message, controller_connected, run, handle_input,
}
use puddle.Core.Event.Effect.{IsHolder}
use puddle.Messages.{hid}
use puddle.Hid.Messages.{
  InputReport, button_click, button_hold_start, short_string, hardware_control, reset, fixed_point,
  led_ring_value, sleep_level, VariableEntry,
}
use puddle.Hid.Ui.{moved, turn_amount, fine_amount, default_command, to_vec, Commands}
use puddle.Hid.Ui.Turning.{IsTuned, moved-turn, square_turn, cube_turn}
use puddle.Hid.Ui.Variables.{Scale, Sent, retain, find_sent, get_variable_key}
use puddle.Hid.Ui.Variables.View.{Shown, Slot, Agrees, shown, retain-shown}
use puddle.Hid.Ui.Report.{IoManager, new_ui, inputs_of, hid_ui}
use puddle.Hid.Ui.Report.Tuned.{input_report, ui_run, ui_run-IsTuned}
use puddle.Hid.Ui.Replay.{replay, inputs_of-IsCarried}
use puddle.Hid.Ui.Live.InStep.{InStep, handle_input-InStep}
use puddle.Hid.Ui.Live.Runs.{run-InStep}
use puddle.Tests.Core.{texts, limits, limits-IsSound}

abbrev scale : Scale
scale value limit = 0

abbrev io : IoManager
io = record { outbound = []; is_open = true }

abbrev server : WebSocketServer
server = record { outbox = []; is_open = true }

-- The end goes up by 9 mm² steps, then the button of encoder 3 is clicked.
abbrev report : InputReport
report = record {
  active_screen_id = 1;
  encoder_deltas = pos 2 ∷ pos 3 ∷ negsuc 0 ∷ pos 1 ∷ [];
  events = button_hold_start 0 ∷ button_click 1 ∷ [];
}

abbrev held : CoreState
held = record default_core_state { write_access_holder = some hid }

moved-turn_example :
    (moved (pos 3600000) (turn_amount (pos 100)) (pos 7)
      ≡ clamp (pos 7 +ℤ square_turn (pos 100)) (pos 0) (pos 3600000))
    × (moved (pos 3600000) (fine_amount (pos 100)) (pos 7)
        ≡ clamp (pos 7 +ℤ cube_turn (pos 100)) (pos 0) (pos 3600000))
moved-turn_example =
    moved-turn (pos 3600000) (pos 100) (pos 7) (omega arith) (omega arith) (omega arith)

ui_run-IsTuned_example :
    IsTuned limits (ui_run scale limits (input_report report held ∷ []) (new_ui io)).motion_commands
ui_run-IsTuned_example =
    ui_run-IsTuned scale limits (omega arith) io (input_report report held ∷ [])

abbrev commands : Commands
commands = (default_command, default_command)

inputs_of-IsCarried_example :
    replay (inputs_of limits held report commands false).messages (to_vec commands)
    ≡ to_vec (inputs_of limits held report commands false).commands
inputs_of-IsCarried_example = inputs_of-IsCarried limits held report commands false

abbrev variables : List VariableEntry
variables = short_string 3 (65 ∷ []) ∷ hardware_control (sleep_level true) ∷ []

-- The first is there already.
abbrev sent : Sent
sent = (3, short_string 3 (65 ∷ [])) ∷ []

abbrev screen : Shown
screen = shown (short_string 3 (65 ∷ []) ∷ []) (λ slot. none)

sent-Agrees : Agrees sent screen
unfolding get_variable_key find_sent shown
sent-Agrees (fixed_point index _ _) h = refl
sent-Agrees (short_string index _) h = refl
sent-Agrees (hardware_control (led_ring_value ring_id _)) h =
    let other : (3 == 128 + ring_id % 128) ≡ false = ground arith in rw other refl
sent-Agrees (hardware_control reset) h = absurd h
sent-Agrees (hardware_control (sleep_level _)) h = refl

retain-shown_example :
    Agrees (retain variables sent).1 (shown (retain variables sent).0 screen)
    × ((slot : Slot) → shown (retain variables sent).0 screen slot ≡ shown variables screen slot)
retain-shown_example = retain-shown variables sent screen (omega arith, (tt, tt)) sent-Agrees

-- A client takes write access, then the handheld controller.
abbrev events : List CoreEvent
events =
    controller_connected (web_socket 2)
    ∷ message (web_socket 2) (request_write_access 1)
    ∷ hid_input_report report
    ∷ hid_input_report report
    ∷ []

run-InStep_example :
    ((run
        (hid_ui scale)
        texts
        events
        (new_manager (hid_ui scale) limits (some (new_ui io)) (some server))).0
      ≡ ok tt)
    × InStep scale
        (run
          (hid_ui scale)
          texts
          events
          (new_manager (hid_ui scale) limits (some (new_ui io)) (some server))).1
run-InStep_example =
    run-InStep scale texts limits io server events limits-IsSound refl refl
      (tt, (tt, (tt, (tt, tt))))

abbrev started : CoreManager (hid_ui scale)
started = record {
  core = set_holder (some (web_socket 2)) (new_core limits);
  hid_ui = some (new_ui io);
  websocket_server = some server;
}

started-InStep : InStep scale started
unfolding new_ui
started-InStep = record {
  commands = (new_ui io).motion_commands;
  live = record {
    ui = new_ui io;
    has_ui = refl;
    reached = record { is_open = refl; commands = refl };
    server = server;
    has_server = refl;
    listens = refl;
  };
  agrees = λ e. absurd (cc);
}

handle_input-InStep_example :
    ((handle_input (hid_ui scale) report started).0 ≡ ok tt)
    × (InStep scale (handle_input (hid_ui scale) report started).1
        × IsHolder hid (handle_input (hid_ui scale) report started).1.core)
handle_input-InStep_example = handle_input-InStep scale report started limits-IsSound started-InStep
