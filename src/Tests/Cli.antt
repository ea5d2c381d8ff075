-- ===== src/Tests/Cli.antt =====
-- A client that holds write access steps its start.
use puddle.Base.{◌≡◌, refl, true, false, none, some, List, [], ◌∷◌, arith}
use puddle.Base.Partial.{Returns}
use puddle.Base.Int.{pos}
use puddle.Messages.{web_socket, connected}
use puddle.Core.Manager.{default_core_state}
use puddle.Cli.{App, KeyCode, right, char, new_app, initial_inputs}
use puddle.Cli.Inputs.{Entry, update_input, has_write_access}
use puddle.Cli.Keys.{AppEvent, core_message, key, run_app}
use puddle.Cli.Indices.{IsUsable}
use puddle.Cli.Usable.{run_app-IsUsable}
use puddle.Cli.Stepping.{IsStepped, update_input-IsStepped}
use puddle.Core.Manager.{is_holder}
use puddle.Tests.Core.{limits}

abbrev entry : Entry
entry text system_limits kind = some (pos 5)

abbrev press : KeyCode → AppEvent
press code = key (record { code = code; control = false; repeats = false; now = 0 })

-- The core's greeting, then a dialog is opened and a key pressed.
abbrev events : List AppEvent
events =
    core_message (
      connected (web_socket 2) limits
        (record default_core_state { write_access_holder = some (web_socket 2) }))
    ∷ press right
    ∷ press (char 32)
    ∷ press (char 49)
    ∷ []

run_app-IsUsable_example : Returns IsUsable (run_app entry events new_app)
run_app-IsUsable_example = run_app-IsUsable entry events

abbrev writer : App
writer = record {
  inputs = initial_inputs;
  input_index = 0;
  limits = some limits;
  state = some (record default_core_state { write_access_holder = some (web_socket 2) });
  my_id = some (web_socket 2);
  exit = false;
  tx = [];
  seq = 1;
  last_key = none;
  repeat_count = 0;
  dialog = none;
}

writes : has_write_access writer.state writer.my_id ≡ true
unfolding has_write_access is_holder
writes = refl

update_input-IsStepped_example : Returns (IsStepped writer) (update_input (pos 1) false writer)
update_input-IsStepped_example =
    update_input-IsStepped (pos 1) false writer
      (record { inputs = refl; index = omega arith; targets = tt }) writes (omega arith)
