-- ===== src/Cli/Keys.antt =====
-- src/bin/puddle-cli.rs: `handle_key_event`.
use puddle.Base.{
  ℕ, zero, suc, ◌+◌, ◌-◌, ◌%◌, ◌^◌, Bool, true, false, not, ◌&&◌, ◌||◌, Option, none, some, List,
  [], ◌∷◌, ◌++◌, ltb, leb, ◌==◌, if◌then◌else◌, length,
}
use puddle.Base.Int.{pos, negsuc}
use puddle.Messages.{
  DriveState, off, moving, paused, CoreState, request_write_access, set_drive_power,
  set_motion_state, acknowledge_error, MotionAction, start, pause, resume,
}
use puddle.Hid.Messages.{CString}
use puddle.Cli.{
  KeyCode, esc, enter, up, down, left, right, backspace, char, KeyEvent, InputDialog, App,
  send_next, handle_core_message,
}
use puddle.Cli.Inputs.{Entry, has_write_access, apply_dialog, reset_inputs, update_input}
use puddle.Base.Partial.{◌>>=◌, map_value}
use puddle.Messages.{CoreMessage}

-- A key while a dialog is open: the dialog, if it stays.
abbrev pub toggle : ℕ → List (ℕ × Bool) → List (ℕ × Bool)
toggle i [] = []
toggle zero ((t, b) ∷ targets) = (t, not b) ∷ targets
toggle (suc i) (t ∷ targets) = t ∷ toggle i targets

abbrev pub drop_last : CString → CString
drop_last [] = []
drop_last (c ∷ []) = []
drop_last (c ∷ cs) = c ∷ drop_last cs

abbrev pub type_char : ℕ → InputDialog → InputDialog
type_char c d = record d { input = d.input ++ (c ∷ []) }

abbrev pub space : ℕ
space = 32

unfoldable pub dialog_char : ℕ → InputDialog → InputDialog
dialog_char c d =
    if d.selected_row == 0
    then type_char c d
    else if (c == space) && leb d.selected_row (length d.targets)
    then record d { targets = toggle (d.selected_row - 1) d.targets }
    else d

abbrev pub with_dialog : Option InputDialog → App → App
with_dialog dialog app = record app { dialog = dialog }

unfoldable pub dialog_key : Entry → InputDialog → KeyCode → App → Option App
unfolding apply_dialog dialog_char
dialog_key entry d esc app = some (with_dialog none app)
dialog_key entry d enter app =
    map_value (with_dialog none) (apply_dialog entry d (with_dialog none app))
dialog_key entry d up app =
    some (with_dialog (some (record d { selected_row = d.selected_row - 1 })) app)
dialog_key entry d down app = some (
    with_dialog
      (some (
        if leb d.selected_row (length d.targets)
        then record d { selected_row = d.selected_row + 1 }
        else d))
      app)
dialog_key entry d (char c) app = some (with_dialog (some (dialog_char c d)) app)
dialog_key entry d backspace app = some (
    with_dialog (some (if d.selected_row == 0 then record d { input = drop_last d.input } else d))
      app)
dialog_key entry d _ app = some (with_dialog (some d) app)

abbrev pub same_key : KeyCode → KeyCode → Bool
same_key esc esc = true
same_key enter enter = true
same_key up up = true
same_key down down = true
same_key left left = true
same_key right right = true
same_key backspace backspace = true
same_key (char a) (char b) = a == b
same_key _ _ = false

-- Another key, or the same within 150 ms.
abbrev pub count_repeats : KeyEvent → Option (KeyCode × ℕ) → ℕ → ℕ
count_repeats event none count = 0
count_repeats event (some (code, last)) count =
    if same_key code event.code && ltb (event.now - last) 150 then (count + 1) % 2 ^ 32 else 0

unfoldable pub note_key : KeyEvent → App → App
note_key event app = record app {
  repeat_count = count_repeats event app.last_key app.repeat_count;
  last_key = some (event.code, event.now);
}

abbrev pub is_off : DriveState → Bool
is_off off = true
is_off _ = false

abbrev pub action_for : DriveState → MotionAction
action_for moving = pause
action_for paused = resume
action_for _ = start

-- `if let Some(state) = &self.state`
abbrev pub power_key : Option CoreState → App → App
power_key none app = app
power_key (some s) app = send_next (λ seq. set_drive_power seq (is_off s.drive_state)) app

abbrev pub motion_key : Option CoreState → App → App
motion_key none app = app
motion_key (some s) app = send_next (λ seq. set_motion_state seq (action_for s.drive_state)) app

-- Whether an input of this kind may be set with one of that kind.
abbrev pub goes_with : ℕ → ℕ → Bool
goes_with zero zero = true
goes_with (suc zero) (suc zero) = true
goes_with (suc (suc zero)) other = leb 2 other
goes_with (suc (suc (suc zero))) other = leb 2 other
goes_with _ _ = false

-- The other inputs from `i` on, unchecked, and the one of the index checked, where the sort by index
-- puts it.
unfoldable pub targets_from : ℕ → ℕ → ℕ → List (ℕ × Bool)
targets_from index zero i = []
targets_from index (suc count) i =
    let rest = targets_from index count (i + 1) in
    if i == index
    then (i, true) ∷ rest
    else if goes_with (index % 4) (i % 4)
    then (i, false) ∷ rest
    else rest

unfoldable pub open_dialog : App → App
unfolding targets_from
open_dialog app = record app {
  dialog =
      some (record { input = []; targets = targets_from app.input_index 8 0; selected_row = 0 });
}

abbrev pub quit : App → App
quit app = record app { exit = true }

-- The letters; those but `q`, `c` and `w` with write access only.
unfoldable pub char_key : Bool → ℕ → Bool → App → App
unfolding reset_inputs open_dialog send_next
char_key control c writes app =
    if c == 113
    then quit app
    else if (c == 99) && control
    then quit app
    else if c == 119
    then send_next request_write_access app
    else if not writes
    then app
    else if c == 112
    then power_key app.state app
    else if c == 109
    then motion_key app.state app
    else if c == 97
    then send_next acknowledge_error app
    else if c == 114
    then reset_inputs app
    else if c == 32
    then open_dialog app
    else app

unfoldable pub main_key : KeyEvent → KeyCode → App → Option App
unfolding char_key update_input
main_key event (char c) app =
    some (char_key event.control c (has_write_access app.state app.my_id) app)
main_key event up app = some (record app { input_index = app.input_index - 1 })
main_key event down app = some (record app {
  input_index = if ltb app.input_index 7 then app.input_index + 1 else app.input_index;
})
main_key event left app = update_input (negsuc 0) (ltb 5 app.repeat_count || event.repeats) app
main_key event right app = update_input (pos 1) (ltb 5 app.repeat_count || event.repeats) app
main_key event _ app = some app

abbrev pub key_in : Entry → KeyEvent → Option InputDialog → App → Option App
key_in entry event (some d) app = dialog_key entry d event.code app
key_in entry event none app = main_key event event.code (note_key event app)

unfoldable pub handle_key_event : Entry → KeyEvent → App → Option App
unfolding dialog_key main_key note_key
handle_key_event entry event app = key_in entry event app.dialog app

-- What the loop of `run` handles.
pub data AppEvent : Type 0 where
  core_message : CoreMessage → AppEvent
  key : KeyEvent → AppEvent

unfoldable pub handle_app_event : Entry → AppEvent → App → Option App
unfolding handle_core_message handle_key_event
handle_app_event entry (core_message m) app = handle_core_message m app
handle_app_event entry (key event) app = handle_key_event entry event app

-- Until the program is told to exit, or panics.
unfoldable pub run_app : Entry → List AppEvent → App → Option App
unfolding handle_app_event
run_app entry [] app = some app
run_app entry (event ∷ events) app =
    let rest = handle_app_event entry event app >>= λ next. run_app entry events next in
    if app.exit then some app else rest
