-- ===== src/Cli/Inputs.antt =====
-- src/bin/puddle-cli.rs: `apply_dialog`, `reset_inputs` and `update_input`.
use puddle.Base.{
  ℕ, zero, suc, ◌-◌, ◌/◌, ◌%◌, ◌^◌, Bool, true, false, ◌&&◌, Option, none, some, is_some, List, [],
  ◌∷◌, ◌==◌, if◌then◌else◌, set,
}
use puddle.Base.Int.{ℤ, pos, ◌+ℤ◌, ◌*ℤ◌, ltb_ℤ, clamp, wrap}
use puddle.Messages.{MotionCommandFields, ControllerId, CoreState, SystemLimits, update_command}
use puddle.Core.Manager.{is_holder}
use puddle.Hid.Messages.{CString}
use puddle.Hid.Ui.{no_fields}
use puddle.Cli.{
  InputDialog, App, initial_inputs, input_at, send_next, send_commands, put, with_inputs,
}
use puddle.Base.Partial.{◌>>=◌, map_value}

-- What `apply_dialog` makes of a text, with the limits and the kind of the unit: the value that it
-- parses, clamps and converts in floating point, or none where the text is no number.
abbrev pub Entry : Type 0
Entry = CString → Option SystemLimits → ℕ → Option ℤ

-- `state.write_access_holder.is_some()`
abbrev pub some_holder : Option CoreState → Bool
some_holder none = false
some_holder (some s) = is_some s.write_access_holder

-- `state.write_access_holder == Some(*my_id)`
unfoldable pub has_write_access : Option CoreState → Option ControllerId → Bool
has_write_access (some s) (some id) = is_holder s.write_access_holder id
has_write_access _ _ = false

abbrev pub send_if_held : App → App
send_if_held app = if some_holder app.state then send_commands app else app

unfoldable pub put_checked : List (ℕ × Bool) → ℤ → List ℤ → Option (List ℤ)
unfolding put
put_checked [] v inputs = some inputs
put_checked ((i, true) ∷ targets) v inputs =
    put i v inputs >>= λ changed. put_checked targets v changed
put_checked ((i, false) ∷ targets) v inputs = put_checked targets v inputs

abbrev pub apply_value : InputDialog → App → Option ℤ → Option App
apply_value dialog app none = some app
apply_value dialog app (some v) =
    map_value (λ inputs. send_if_held (with_inputs app inputs))
      (put_checked dialog.targets v app.inputs)

unfoldable pub apply_dialog : Entry → InputDialog → App → Option App
unfolding put_checked send_commands
apply_dialog entry dialog app =
    apply_value dialog app (entry dialog.input app.limits (app.input_index % 4))

unfoldable pub reset_inputs : App → App
unfolding send_commands
reset_inputs app = send_if_held (record app { inputs = initial_inputs })

abbrev pub limit_for : Option SystemLimits → ℕ → ℤ
limit_for none i = pos (2 ^ 31 - 1)
limit_for (some limits) zero = limits.position
limit_for (some limits) (suc zero) = limits.velocity
limit_for (some limits) (suc (suc zero)) = limits.acceleration
limit_for (some limits) _ = limits.deceleration

abbrev pub step_for : Bool → ℤ
step_for large = if large then pos 10000 else pos 1000

-- `(value + delta * step).clamp(0, limit)`
unfoldable pub stepped : ℤ → ℤ → Bool → ℤ → ℤ
stepped limit delta large v = clamp (wrap 32 (v +ℤ delta *ℤ step_for large)) (pos 0) limit

-- The inputs, and the indices that changed beside the first.
unfoldable pub push_other : ℕ → List ℤ → List ℤ × List ℕ
push_other i inputs =
    if (i == 0) && ltb_ℤ (input_at inputs 4) (input_at inputs 0)
    then (set inputs 4 (input_at inputs 0), 4 ∷ [])
    else if (i == 4) && ltb_ℤ (input_at inputs 4) (input_at inputs 0)
    then (set inputs 0 (input_at inputs 4), 0 ∷ [])
    else (inputs, [])

abbrev pub fields_for : ℕ → ℤ → MotionCommandFields
fields_for zero v = record no_fields { position = some v }
fields_for (suc zero) v = record no_fields { velocity = some v }
fields_for (suc (suc zero)) v = record no_fields { acceleration = some v }
fields_for _ v = record no_fields { deceleration = some v }

unfoldable pub send_update : ℕ → App → App
unfolding send_next
send_update i app =
    send_next
      (λ seq.
        update_command seq
          (record { index = i / 4; fields = fields_for (i % 4) (input_at app.inputs i) }))
      app

unfoldable pub send_updates : List ℕ → App → App
unfolding send_update
send_updates [] app = app
send_updates (i ∷ indices) app = send_updates indices (send_update i app)

-- Once the selected input is stepped.
unfoldable pub finish_step : App → List ℤ → App
unfolding push_other send_updates
finish_step app stepped_inputs =
    let i = app.input_index in
    let (inputs, others) = push_other i stepped_inputs in
    let changed = with_inputs app inputs in
    if some_holder app.state then send_updates (i ∷ others) changed else changed

unfoldable pub update_held : ℤ → Bool → App → Option App
unfolding stepped finish_step put
update_held delta large app =
    let i = app.input_index in
    let limit = limit_for app.limits (i % 4) in
    map_value (finish_step app)
      (put i (stepped limit delta large (input_at app.inputs i)) app.inputs)

unfoldable pub update_input : ℤ → Bool → App → Option App
unfolding has_write_access update_held
update_input delta large app =
    if has_write_access app.state app.my_id then update_held delta large app else some app
