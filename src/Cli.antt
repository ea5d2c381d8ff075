-- ===== src/Cli.antt =====
-- src/bin/puddle-cli.rs: the state of `App` and what it does with the messages of the core; what can
-- panic on an index returns an Option. Drawing,
-- the threads and the sockets are not modelled.
pub mod Inputs
pub mod Usable
pub mod Stepping
pub mod Keys
pub mod Indices
use puddle.Base.{
  ℕ, zero, suc, ◌+◌, ◌*◌, ◌%◌, ◌^◌, Bool, true, false, Option, none, some, is_some, List, [], ◌∷◌,
  ltb, ◌==◌, if◌then◌else◌, get_or, set, take, length,
}
use puddle.Base.Partial.{◌>>=◌, map_value}
use puddle.Base.Int.{ℤ, pos}
use puddle.Messages.{
  MotionCommand, MotionCommandFields, CommandUpdate, ControllerId, CoreState, SystemLimits,
  ClientMessage, get_command_set, upsert_command_set, CoreMessage, connected, write_access_result,
  command_set, state, command_set_changed, write_access_changed,
}
use puddle.Hid.Messages.{CString}

-- The keys that the program knows.
pub data KeyCode : Type 0 where
  esc enter up down left right backspace unknown : KeyCode
  char : ℕ → KeyCode

-- Whether the control key is down, whether the terminal repeats the key, and the time in milliseconds.
pub record KeyEvent : Type 0 where
  pub code : KeyCode
  pub control : Bool
  pub repeats : Bool
  pub now : ℕ

-- A target is an index of the inputs, and whether it is checked.
pub record InputDialog : Type 0 where
  pub input : CString
  pub targets : List (ℕ × Bool)
  pub selected_row : ℕ

-- `tx` is what was sent, the newest first.
pub record App : Type 0 where
  pub inputs : List ℤ
  pub input_index : ℕ
  pub limits : Option SystemLimits
  pub state : Option CoreState
  pub my_id : Option ControllerId
  pub exit : Bool
  pub tx : List ClientMessage
  pub seq : ℕ
  pub last_key : Option (KeyCode × ℕ)
  pub repeat_count : ℕ
  pub dialog : Option InputDialog

abbrev pub initial_inputs : List ℤ
initial_inputs =
    pos 0 ∷ pos 500000 ∷ pos 200000 ∷ pos 200000 ∷ pos 0 ∷ pos 500000 ∷ pos 200000 ∷ pos 200000 ∷ []

-- `App::new`, but for its threads.
unfoldable pub new_app : App
new_app = record {
  inputs = initial_inputs;
  input_index = 0;
  limits = none;
  state = none;
  my_id = none;
  exit = false;
  tx = [];
  seq = 1;
  last_key = none;
  repeat_count = 0;
  dialog = none;
}

-- `let seq = self.next_seq(); self.send(…)`
unfoldable pub send_next : (ℕ → ClientMessage) → App → App
send_next message app = record app { seq = (app.seq + 1) % 2 ^ 64; tx = message app.seq ∷ app.tx }

-- Of an index that is written too (`put`), or a constant one.
abbrev pub input_at : List ℤ → ℕ → ℤ
input_at inputs i = get_or inputs i (pos 0)

abbrev pub command_from : List ℤ → ℕ → MotionCommand
command_from inputs i = record {
  position = input_at inputs i;
  velocity = input_at inputs (i + 1);
  acceleration = input_at inputs (i + 2);
  deceleration = input_at inputs (i + 3);
}

-- The two commands replace the active set.
unfoldable pub send_commands : App → App
unfolding send_next
send_commands app =
    send_next
      (λ seq.
        upsert_command_set seq none none
          (command_from app.inputs 0 ∷ command_from app.inputs 4 ∷ []))
      app

abbrev pub set_app_holder : Option ControllerId → App → App
set_app_holder holder app = record app {
  state = elim app.state [
    | some s ↦ some (record s { write_access_holder = holder })
    | none ↦ none
  ];
}

-- `self.inputs[i] = v`, which panics where the index is out of range.
unfoldable pub put : ℕ → ℤ → List ℤ → Option (List ℤ)
put i v inputs = if ltb i (length inputs) then some (set inputs i v) else none

unfoldable pub put_field : ℕ → Option ℤ → List ℤ → Option (List ℤ)
unfolding put
put_field i none inputs = some inputs
put_field i (some v) inputs = put i v inputs

unfoldable pub put_fields : ℕ → MotionCommandFields → List ℤ → Option (List ℤ)
unfolding put_field
put_fields base f inputs =
    put_field base f.position inputs
    >>= put_field (base + 1) f.velocity
    >>= put_field (base + 2) f.acceleration
    >>= put_field (base + 3) f.deceleration

abbrev pub all_fields : MotionCommand → MotionCommandFields
all_fields c = record {
  position = some c.position;
  velocity = some c.velocity;
  acceleration = some c.acceleration;
  deceleration = some c.deceleration;
}

unfoldable pub put_command : ℕ → MotionCommand → List ℤ → Option (List ℤ)
unfolding put_fields
put_command i c inputs = put_fields (i * 4) (all_fields c) inputs

-- The loop over the commands, from `i` on.
unfoldable pub put_commands : ℕ → List MotionCommand → List ℤ → Option (List ℤ)
unfolding put_command
put_commands i [] inputs = some inputs
put_commands i (c ∷ commands) inputs =
    put_command i c inputs >>= λ changed. put_commands (suc i) commands changed

abbrev pub with_inputs : App → List ℤ → App
with_inputs app inputs = record app { inputs = inputs }

abbrev pub ask_commands : App → App
ask_commands = send_next (λ seq. get_command_set seq none)

-- None where it panics.
unfoldable pub handle_core_message : CoreMessage → App → Option App
unfolding send_next send_commands put_commands put_fields
handle_core_message (connected id limits s) app =
    some (ask_commands (record app { my_id = some id; limits = some limits; state = some s }))
handle_core_message (state _ s) app = some (record app { state = some s })
handle_core_message (write_access_changed holder _) app = some (set_app_holder holder app)
handle_core_message (write_access_result _ granted holder) app =
    let told = set_app_holder holder app in some (if granted then send_commands told else told)
handle_core_message (command_set_changed _ none) app = some (ask_commands app)
handle_core_message (command_set_changed _ (some update)) app =
    if ltb update.index 2
    then map_value (with_inputs app) (put_fields (update.index * 4) update.fields app.inputs)
    else some app
handle_core_message (command_set _ none _ commands) app =
    map_value (with_inputs app) (put_commands 0 (take 2 commands) app.inputs)
handle_core_message _ app = some app
