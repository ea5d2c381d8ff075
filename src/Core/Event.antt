-- ===== src/Core/Event.antt =====
-- src/main.rs: `handle_message`, `handle_event` and the loop of `main` over the events.
pub mod Effect
pub mod Reply
pub mod Sync
use puddle.Base.{ℕ, Bool, true, false, Option, none, some, List, [], ◌∷◌, if◌then◌else◌}
use puddle.Base.Exec.{Result, ok, err, ◌>>=◌, ◌>>◌, pure}
use puddle.Linmot.Mci.Decode.{ErrorCode, no_error}
use puddle.Drive.Connection.{DriveFeedback}
use puddle.Hid.Messages.{InputReport}
use puddle.Messages.{
  ControllerId, hid, ClientMessage, request_write_access, release_write_access, get_state,
  get_command_set, upsert_command_set, update_command, delete_command_set, list_saved_sets,
  set_drive_power, set_motion_state, acknowledge_error, CoreMessage, connected, state,
  write_access_changed,
}
use puddle.Core.Manager.{
  HidUi, Texts, Core, CoreManager, Act, is_holder, set_holder, with_ui, update_core, send,
}
use puddle.Core.Access
use puddle.Core.Sets
use puddle.Core.Power

pub data CoreEvent : Type 0 where
  controller_connected controller_disconnected : ControllerId → CoreEvent
  message : ControllerId → ClientMessage → CoreEvent
  drive_state_updated : DriveFeedback → CoreEvent
  hid_input_report : InputReport → CoreEvent

-- What the core keeps of the drive's feedback.
unfoldable pub follow_drive : Texts → DriveFeedback → Core → Core
follow_drive texts f k = record k {
  core_state = record k.core_state {
    drive_state = f.drive_state;
    active_command_index = f.active_command_index;
    actual_position = f.actual_position;
    demand_position = f.demand_position;
    demand_velocity = f.demand_velocity;
    demand_acceleration = f.demand_acceleration;
    current_draw = f.current_draw;
    drive_temperature = f.drive_temperature;
    motor_temperature = f.motor_temperature;
    warnings = texts.warnings f.warning_flags;
    error_code = elim f.error_code [ no_error ↦ none | e ↦ some (texts.error_code e) ];
  };
}

module _ (ui : HidUi) where
  unfoldable pub handle_message : ControllerId → ClientMessage → Act ui (Unit {0})
  handle_message id (request_write_access seq) = Access.request_write_access ui id seq
  handle_message id (release_write_access seq) = Access.release_write_access ui id seq
  handle_message id (get_state seq) = Access.get_state ui id seq
  handle_message id (get_command_set seq set) = Sets.get_command_set ui id seq set
  handle_message id (upsert_command_set seq set base commands) =
      Sets.upsert_command_set ui id seq set base commands
  handle_message id (update_command seq update) = Sets.update_command ui id seq update
  handle_message id (delete_command_set seq set base) = Sets.delete_command_set ui id seq set base
  handle_message id (list_saved_sets seq) = Sets.list_saved_sets ui id seq
  handle_message id (set_drive_power seq enabled) = Power.set_drive_power ui id seq enabled
  handle_message id (set_motion_state seq action) = Power.set_motion_state ui id seq action
  handle_message id (acknowledge_error seq) = Power.acknowledge_error ui id seq

  unfoldable pub controller_gone : ControllerId → Act ui (Unit {0})
  controller_gone id s =
      if is_holder s.core.core_state.write_access_holder id
      then (do
        update_core ui (λ k. Power.set_enabled false false (set_holder none k))
        send ui none (write_access_changed none (some id)))
          s
      else (ok tt, s)

  -- The messages of the user interface, up to the first that fails.
  unfoldable pub handle_messages : List ClientMessage → Act ui (Unit {0})
  handle_messages [] = pure tt
  handle_messages (m ∷ messages) = do handle_message hid m; handle_messages messages

  unfoldable pub handle_input : InputReport → Act ui (Unit {0})
  unfolding handle_messages
  handle_input report s = elim s.hid_ui [
    | none ↦ (ok tt, s)
    | some u ↦
        (with_ui ui (ui.process_input_report report s.core.limits s.core.core_state) u
            >>= handle_messages)
          s
  ]

  unfoldable pub handle_event : Texts → CoreEvent → Act ui (Unit {0})
  unfolding controller_gone handle_input
  handle_event texts (controller_connected id) s =
      send ui (some id) (connected id s.core.limits s.core.core_state) s
  handle_event texts (controller_disconnected id) s = controller_gone id s
  handle_event texts (message id m) s = handle_message id m s
  handle_event texts (drive_state_updated feedback) s =
      (do
        update_core ui (follow_drive texts feedback)
        λ t. send ui none (state none t.core.core_state) t)
        s
  handle_event texts (hid_input_report report) s = handle_input report s

  -- The loop of `main`, which ends with the first error.
  unfoldable pub run : Texts → List CoreEvent → Act ui (Unit {0})
  unfolding handle_event
  run texts [] = pure tt
  run texts (event ∷ events) = do handle_event texts event; run texts events
