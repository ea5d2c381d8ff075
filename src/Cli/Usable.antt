-- ===== src/Cli/Usable.antt =====
-- src/bin/puddle-cli.rs: whatever keys and messages come, every index of the client is in range.
use puddle.Base.{
  ℕ, zero, suc, ◌+◌, ◌-◌, ◌%◌, ◌<◌, ◌≤◌, refl, arith, Bool, true, false, not, ◌&&◌, ◌||◌, Option,
  none, some, List, [], ◌∷◌, inl, inr, All, Bool-cases, ltb, leb, ◌==◌, if◌then◌else◌, length,
}
use puddle.Base.Partial.{Returns, bind-Returns, map-Returns, either-Returns}
use puddle.Base.Int.{pos, negsuc}
use puddle.Messages.{CoreState, request_write_access, acknowledge_error}
use puddle.Cli.{
  KeyCode, esc, enter, up, down, left, right, backspace, char, KeyEvent, InputDialog, App, new_app,
  send_next, initial_inputs,
}
use puddle.Cli.Inputs.{Entry, has_write_access, apply_dialog, reset_inputs}
use puddle.Cli.Keys.{
  drop_last, toggle, space, dialog_char, with_dialog, dialog_key, note_key, power_key, motion_key,
  goes_with, targets_from, open_dialog, quit, char_key, main_key, key_in, handle_key_event,
  AppEvent, core_message, key, handle_app_event, run_app,
}
use puddle.Cli.Indices.{
  InRange, DialogInRange, IsUsable, same-IsUsable, either-IsUsable, send_if_held-IsUsable,
  apply_value-IsUsable, handle_core_message-IsUsable, update_input-IsUsable,
}

toggle-InRange :
    (i : ℕ) (targets : List (ℕ × Bool)) → All InRange targets → All InRange (toggle i targets)
toggle-InRange i [] h = tt
toggle-InRange zero ((t, b) ∷ targets) h = h
toggle-InRange (suc i) (t ∷ targets) h = (h.0, toggle-InRange i targets h.1)

dialog_char-InRange :
    (c : ℕ) (d : InputDialog) → All InRange d.targets → All InRange (dialog_char c d).targets
unfolding dialog_char
dialog_char-InRange c d h = elim (Bool-cases (d.selected_row == 0)) [
  | inl e ↦ rw e h
  | inr e ↦ elim (Bool-cases ((c == space) && leb d.selected_row (length d.targets))) [
    | inl f ↦ rw (e, f) (toggle-InRange (d.selected_row - 1) d.targets h)
    | inr f ↦ rw (e, f) h
  ]
]

-- The dialog changes, or is closed.
with_dialog-IsUsable :
    (app : App) (dialog : Option InputDialog)
    → IsUsable app
    → DialogInRange dialog
    → IsUsable (with_dialog dialog app)
with_dialog-IsUsable app dialog h t = record { inputs = h.inputs; index = h.index; targets = t }

if-InRange :
    (b : Bool) (d e : InputDialog)
    → All InRange d.targets
    → All InRange e.targets
    → All InRange (if b then d else e).targets
if-InRange true d e hd he = hd
if-InRange false d e hd he = he

dialog_key-IsUsable :
    (entry : Entry) (d : InputDialog) (code : KeyCode) (app : App)
    → IsUsable app
    → All InRange d.targets
    → Returns IsUsable (dialog_key entry d code app)
unfolding dialog_key apply_dialog
dialog_key-IsUsable entry d esc app h t = with_dialog-IsUsable app none h tt
dialog_key-IsUsable entry d enter app h t =
    map-Returns IsUsable IsUsable (with_dialog none) _
      (apply_value-IsUsable d (with_dialog none app)
        (entry d.input app.limits (app.input_index % 4)) (with_dialog-IsUsable app none h tt) t)
      (λ applied u. with_dialog-IsUsable applied none u tt)
dialog_key-IsUsable entry d up app h t = with_dialog-IsUsable app _ h t
dialog_key-IsUsable entry d down app h t =
    with_dialog-IsUsable app
      (some (
        if leb d.selected_row (length d.targets)
        then record d { selected_row = d.selected_row + 1 }
        else d))
      h
      (if-InRange (leb d.selected_row (length d.targets))
        (record d { selected_row = d.selected_row + 1 }) d t t)
dialog_key-IsUsable entry d (char c) app h t =
    with_dialog-IsUsable app (some (dialog_char c d)) h (dialog_char-InRange c d t)
dialog_key-IsUsable entry d backspace app h t =
    with_dialog-IsUsable app
      (some (if d.selected_row == 0 then record d { input = drop_last d.input } else d)) h
      (if-InRange (d.selected_row == 0) (record d { input = drop_last d.input }) d t t)
dialog_key-IsUsable entry d _ app h t = with_dialog-IsUsable app (some d) h t

targets_from-InRange :
    (index count i : ℕ) → i + count ≤ 8 → All InRange (targets_from index count i)
unfolding targets_from
targets_from-InRange index zero i le = tt
targets_from-InRange index (suc count) i le =
    let rest = targets_from-InRange index count (i + 1) (omega arith) in
    let lt : i < 8 = omega arith in
    elim (Bool-cases (i == index)) [
      | inl e ↦ rw e (lt, rest)
      | inr e ↦ elim (Bool-cases (goes_with (index % 4) (i % 4))) [
        | inl f ↦ rw (e, f) (lt, rest)
        | inr f ↦ rw (e, f) rest
      ]
    ]

power_key-IsUsable : (s : Option CoreState) (app : App) → IsUsable app → IsUsable (power_key s app)
unfolding send_next
power_key-IsUsable none app h = h
power_key-IsUsable (some s) app h = record {
  inputs = h.inputs;
  index = h.index;
  targets = h.targets;
}

motion_key-IsUsable :
    (s : Option CoreState) (app : App) → IsUsable app → IsUsable (motion_key s app)
unfolding send_next
motion_key-IsUsable none app h = h
motion_key-IsUsable (some s) app h = record {
  inputs = h.inputs;
  index = h.index;
  targets = h.targets;
}

char_key-IsUsable :
    (control : Bool) (c : ℕ) (writes : Bool) (app : App)
    → IsUsable app
    → IsUsable (char_key control c writes app)
unfolding char_key send_next reset_inputs open_dialog
char_key-IsUsable control c writes app h =
    let exits : IsUsable (quit app) = record {
      inputs = h.inputs;
      index = h.index;
      targets = h.targets;
    } in
    let asks : IsUsable (send_next request_write_access app) = record {
      inputs = h.inputs;
      index = h.index;
      targets = h.targets;
    } in
    let acknowledges : IsUsable (send_next acknowledge_error app) = record {
      inputs = h.inputs;
      index = h.index;
      targets = h.targets;
    } in
    let resets : IsUsable (reset_inputs app) =
      send_if_held-IsUsable (record app { inputs = initial_inputs })
        (record { inputs = refl; index = h.index; targets = h.targets }) in
    let opens : IsUsable (open_dialog app) = record {
      inputs = h.inputs;
      index = h.index;
      targets = targets_from-InRange app.input_index 8 0 (omega arith);
    } in
    either-IsUsable (c == 113) _ _ exits (
      either-IsUsable ((c == 99) && control) _ _ exits (
        either-IsUsable (c == 119) _ _ asks (
          either-IsUsable (not writes) _ _ h (
            either-IsUsable (c == 112) _ _ (power_key-IsUsable app.state app h) (
              either-IsUsable (c == 109) _ _ (motion_key-IsUsable app.state app h) (
                either-IsUsable (c == 97) _ _ acknowledges (
                  either-IsUsable (c == 114) _ _ resets
                    (either-IsUsable (c == 32) _ _ opens h))))))))

main_key-IsUsable :
    (event : KeyEvent) (code : KeyCode) (app : App)
    → IsUsable app
    → Returns IsUsable (main_key event code app)
unfolding main_key
main_key-IsUsable event (char c) app h =
    char_key-IsUsable event.control c (has_write_access app.state app.my_id) app h
main_key-IsUsable event up app h = record {
  inputs = h.inputs;
  index = ground (arith, h.index);
  targets = h.targets;
}
main_key-IsUsable event down app h = record {
  inputs = h.inputs;
  index = ground (arith, h.index);
  targets = h.targets;
}
main_key-IsUsable event left app h =
    update_input-IsUsable (negsuc 0) (ltb 5 app.repeat_count || event.repeats) app h
main_key-IsUsable event right app h =
    update_input-IsUsable (pos 1) (ltb 5 app.repeat_count || event.repeats) app h
main_key-IsUsable event _ app h = h

key_in-IsUsable :
    (entry : Entry) (event : KeyEvent) (dialog : Option InputDialog) (app : App)
    → IsUsable app
    → DialogInRange dialog
    → Returns IsUsable (key_in entry event dialog app)
unfolding note_key
key_in-IsUsable entry event (some d) app h t = dialog_key-IsUsable entry d event.code app h t
key_in-IsUsable entry event none app h t =
    main_key-IsUsable event event.code (note_key event app)
      (same-IsUsable app (note_key event app) refl refl refl h)

handle-IsUsable :
    (entry : Entry) (event : AppEvent) (app : App)
    → IsUsable app
    → Returns IsUsable (handle_app_event entry event app)
unfolding handle_app_event handle_key_event
handle-IsUsable entry (core_message m) app h = handle_core_message-IsUsable m app h
handle-IsUsable entry (key event) app h = key_in-IsUsable entry event app.dialog app h h.targets

run_from :
    (entry : Entry) (events : List AppEvent) (app : App)
    → IsUsable app
    → Returns IsUsable (run_app entry events app)
unfolding run_app
run_from entry [] app h = h
run_from entry (event ∷ events) app h = either-Returns IsUsable app.exit (some app) _ h (
    bind-Returns IsUsable IsUsable _ _ (handle-IsUsable entry event app h)
      (λ next u. run_from entry events next u))

-- Whatever keys are pressed and whatever messages the core sends, the client does not panic on an
-- index that is out of range of its inputs; there are eight of them, the selected one is one of them,
-- and so is every target of an open dialog.
pub run_app-IsUsable :
    (entry : Entry) (events : List AppEvent) → Returns IsUsable (run_app entry events new_app)
unfolding new_app
run_app-IsUsable entry events =
    run_from entry events new_app (record { inputs = refl; index = omega arith; targets = tt })
