-- ===== src/Cli/Indices.antt =====
-- src/bin/puddle-cli.rs: every index of the client is in range, whatever keys and messages come.
use puddle.Base.{
  ℕ, suc, ◌+◌, ◌*◌, ◌<◌, ◌≡◌, ◌∙◌, refl, Bool, true, false, ◌&&◌, Option, none, some, List, [], ◌∷◌,
  inl, inr, All, Bool-cases, ltb, ◌==◌, if◌then◌else◌, length, length-set, take, length-take, arith,
  ◌≤◌,
}
use puddle.Base.Int.{ℤ, ltb_ℤ}
use puddle.Base.Partial.{Returns, bind-Returns, map-Returns, either-Returns}
use puddle.Messages.{
  MotionCommand, MotionCommandFields, CoreMessage, connected, state, write_access_changed,
  write_access_result, command_set_changed, command_set,
}
use puddle.Cli.{
  InputDialog, App, set_app_holder, send_next, send_commands, put, all_fields, with_inputs,
  put_field, put_fields, put_command, put_commands, handle_core_message, input_at,
}
use puddle.Cli.Inputs.{
  some_holder, has_write_access, send_if_held, put_checked, apply_value, push_other, send_update,
  send_updates, update_held, update_input, finish_step,
}

abbrev pub InRange : ℕ × Bool → Type 0
InRange t = t.0 < 8

abbrev pub DialogInRange : Option InputDialog → Type 0
DialogInRange none = Unit {0}
DialogInRange (some d) = All InRange d.targets

-- There are eight inputs, the selected one is one of them, and so is every target of a dialog.
pub record IsUsable (app : App) : Type 0 where
  pub inputs : length app.inputs ≡ 8
  pub index : app.input_index < 8
  pub targets : DialogInRange app.dialog

abbrev pub IsEight : List ℤ → Type 0
IsEight inputs = length inputs ≡ 8

put-IsEight :
    (i : ℕ) (v : ℤ) (inputs : List ℤ) → i < 8 → IsEight inputs → Returns IsEight (put i v inputs)
unfolding put
put-IsEight i v inputs lt h =
    let in_range : ltb i (length inputs) ≡ true = ground arith in
    rw in_range (length-set inputs i v ∙ h)

put_field-IsEight :
    (i : ℕ) (v : Option ℤ) (inputs : List ℤ)
    → i < 8
    → IsEight inputs
    → Returns IsEight (put_field i v inputs)
unfolding put_field
put_field-IsEight i none inputs lt h = h
put_field-IsEight i (some v) inputs lt h = put-IsEight i v inputs lt h

put_fields-IsEight :
    (base : ℕ) (f : MotionCommandFields) (inputs : List ℤ)
    → base + 3 < 8
    → IsEight inputs
    → Returns IsEight (put_fields base f inputs)
unfolding put_fields
put_fields-IsEight base f inputs lt h =
    bind-Returns IsEight IsEight _ _
      (bind-Returns IsEight IsEight _ _
        (bind-Returns IsEight IsEight _ _ (put_field-IsEight base f.position inputs (omega arith) h)
          (λ a e. put_field-IsEight (base + 1) f.velocity a (omega arith) e))
        (λ a e. put_field-IsEight (base + 2) f.acceleration a (omega arith) e))
      (λ a e. put_field-IsEight (base + 3) f.deceleration a lt e)

put_commands-IsEight :
    (i : ℕ) (commands : List MotionCommand) (inputs : List ℤ)
    → i + length commands ≤ 2
    → IsEight inputs
    → Returns IsEight (put_commands i commands inputs)
unfolding put_commands put_command
put_commands-IsEight i [] inputs le h = h
put_commands-IsEight i (c ∷ commands) inputs le h =
    bind-Returns IsEight IsEight _ _
      (put_fields-IsEight (i * 4) (all_fields c) inputs (omega arith) h)
      (λ changed e. put_commands-IsEight (suc i) commands changed (omega arith) e)

put_checked-IsEight :
    (targets : List (ℕ × Bool)) (v : ℤ) (inputs : List ℤ)
    → All InRange targets
    → IsEight inputs
    → Returns IsEight (put_checked targets v inputs)
unfolding put_checked
put_checked-IsEight [] v inputs t h = h
put_checked-IsEight ((i, true) ∷ targets) v inputs t h =
    bind-Returns IsEight IsEight _ _ (put-IsEight i v inputs t.0 h)
      (λ changed e. put_checked-IsEight targets v changed t.1 e)
put_checked-IsEight ((i, false) ∷ targets) v inputs t h = put_checked-IsEight targets v inputs t.1 h

-- What leaves inputs, selection and dialog alone.
pub same-IsUsable :
    (app app' : App)
    → app'.inputs ≡ app.inputs
    → app'.input_index ≡ app.input_index
    → app'.dialog ≡ app.dialog
    → IsUsable app
    → IsUsable app'
same-IsUsable app app' e f g h = record {
  inputs = rw e h.inputs;
  index = rw f h.index;
  targets = rw g h.targets;
}

send_commands-IsUsable : (app : App) → IsUsable app → IsUsable (send_commands app)
unfolding send_commands send_next
send_commands-IsUsable app h = same-IsUsable app (send_commands app) refl refl refl h

pub either-IsUsable :
    (b : Bool) (x y : App) → IsUsable x → IsUsable y → IsUsable (if b then x else y)
either-IsUsable true x y hx hy = hx
either-IsUsable false x y hx hy = hy

pub with_inputs-IsUsable :
    (app : App) (inputs : List ℤ)
    → IsUsable app
    → IsEight inputs
    → IsUsable (with_inputs app inputs)
with_inputs-IsUsable app inputs h e = record { inputs = e; index = h.index; targets = h.targets }

pub handle_core_message-IsUsable :
    (m : CoreMessage) (app : App) → IsUsable app → Returns IsUsable (handle_core_message m app)
unfolding handle_core_message send_next
handle_core_message-IsUsable (connected id limits s) app h = record {
  inputs = h.inputs;
  index = h.index;
  targets = h.targets;
}
handle_core_message-IsUsable (state _ s) app h = record {
  inputs = h.inputs;
  index = h.index;
  targets = h.targets;
}
handle_core_message-IsUsable (write_access_changed holder _) app h = record {
  inputs = h.inputs;
  index = h.index;
  targets = h.targets;
}
handle_core_message-IsUsable (write_access_result _ granted holder) app h =
    let told : IsUsable (set_app_holder holder app) = record {
      inputs = h.inputs;
      index = h.index;
      targets = h.targets;
    } in
    either-IsUsable granted (send_commands (set_app_holder holder app)) (set_app_holder holder app)
      (send_commands-IsUsable (set_app_holder holder app) told) told
handle_core_message-IsUsable (command_set_changed _ none) app h = record {
  inputs = h.inputs;
  index = h.index;
  targets = h.targets;
}
handle_core_message-IsUsable (command_set_changed _ (some update)) app h =
    elim (Bool-cases (ltb update.index 2)) [
      | inl e ↦
          let lt : update.index * 4 + 3 < 8 = ground arith in
          rw e (
            map-Returns IsEight IsUsable (with_inputs app) _
              (put_fields-IsEight (update.index * 4) update.fields app.inputs lt h.inputs)
              (λ inputs eight. with_inputs-IsUsable app inputs h eight))
      | inr e ↦ rw e h
    ]
handle_core_message-IsUsable (command_set _ none _ commands) app h =
    map-Returns IsEight IsUsable (with_inputs app) _
      (put_commands-IsEight 0 (take 2 commands) app.inputs (omega (arith, length-take 2 commands))
        h.inputs)
      (λ inputs eight. with_inputs-IsUsable app inputs h eight)
handle_core_message-IsUsable _ app h = h

pub send_if_held-IsUsable : (app : App) → IsUsable app → IsUsable (send_if_held app)
send_if_held-IsUsable app h =
    either-IsUsable (some_holder app.state) (send_commands app) app (send_commands-IsUsable app h) h

pub apply_value-IsUsable :
    (d : InputDialog) (app : App) (v : Option ℤ)
    → IsUsable app
    → All InRange d.targets
    → Returns IsUsable (apply_value d app v)
apply_value-IsUsable d app none h t = h
apply_value-IsUsable d app (some v) h t =
    map-Returns IsEight IsUsable (λ inputs. send_if_held (with_inputs app inputs)) _
      (put_checked-IsEight d.targets v app.inputs t h.inputs)
      (λ inputs e.
        send_if_held-IsUsable (with_inputs app inputs) (with_inputs-IsUsable app inputs h e))

length-push_other : (i : ℕ) (inputs : List ℤ) → length (push_other i inputs).0 ≡ length inputs
unfolding push_other
length-push_other i inputs =
    elim (Bool-cases ((i == 0) && ltb_ℤ (input_at inputs 4) (input_at inputs 0))) [
      | inl e ↦ rw e (length-set inputs 4 (input_at inputs 0))
      | inr e ↦ elim (Bool-cases ((i == 4) && ltb_ℤ (input_at inputs 4) (input_at inputs 0))) [
        | inl f ↦ rw (e, f) (length-set inputs 0 (input_at inputs 4))
        | inr f ↦ rw (e, f) refl
      ]
    ]

send_updates-IsUsable :
    (indices : List ℕ) (app : App) → IsUsable app → IsUsable (send_updates indices app)
unfolding send_updates send_update send_next
send_updates-IsUsable [] app h = h
send_updates-IsUsable (i ∷ indices) app h =
    send_updates-IsUsable indices (send_update i app)
      (same-IsUsable app (send_update i app) refl refl refl h)

finish_step-IsUsable :
    (app : App) (inputs : List ℤ)
    → IsUsable app
    → IsEight inputs
    → IsUsable (finish_step app inputs)
unfolding finish_step
finish_step-IsUsable app inputs h e =
    let i = app.input_index in
    let pushed = push_other i inputs in
    let changed = with_inputs app pushed.0 in
    let usable = with_inputs-IsUsable app pushed.0 h (length-push_other i inputs ∙ e) in
    either-IsUsable (some_holder app.state) (send_updates (i ∷ pushed.1) changed) changed
      (send_updates-IsUsable (i ∷ pushed.1) changed usable) usable

pub update_input-IsUsable :
    (delta : ℤ) (large : Bool) (app : App)
    → IsUsable app
    → Returns IsUsable (update_input delta large app)
unfolding update_input update_held
update_input-IsUsable delta large app h =
    either-Returns IsUsable (has_write_access app.state app.my_id) (update_held delta large app)
      (some app)
      (map-Returns IsEight IsUsable (finish_step app) _
        (put-IsEight app.input_index _ app.inputs h.index h.inputs)
        (λ inputs e. finish_step-IsUsable app inputs h e))
      h
