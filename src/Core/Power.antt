-- ===== src/Core/Power.antt =====
-- src/main.rs: the answers of `handle_message` to what concerns power, motion and errors of the drive.
use puddle.Base.{ℕ, Bool, true, false, ◌&&◌, if◌then◌else◌}
use puddle.Base.Exec.{◌>>◌}
use puddle.Messages.{
  DriveState, errored, moving, paused, ControllerId, MotionAction, start, pause, resume, stop,
  invalid_state,
}
use puddle.Drive.Connection.{send_action, action_reset_index, action_ack_error}
use puddle.Core.Manager.{HidUi, Core, Act, update_core}
use puddle.Core.Access.{fail, succeed, for_holder}

-- What is behind the mutex, but for the commands.
abbrev pub set_enabled : Bool → Bool → Core → Core
set_enabled power_enabled motion_enabled k = record k {
  interface = record k.interface {
    commands = record k.interface.commands {
      power_enabled = power_enabled;
      motion_enabled = motion_enabled;
    };
  };
}

-- `self.drive.interface.actions.send(action)`
abbrev pub add_action : ℕ → Core → Core
add_action action k = record k {
  interface = record k.interface { actions = send_action action k.interface.actions };
}

unfoldable pub power : Bool → Core → Core
power enabled k = set_enabled enabled (enabled && k.interface.commands.motion_enabled) k

unfoldable pub is_valid_action : MotionAction → DriveState → Bool
is_valid_action start paused = true
is_valid_action pause moving = true
is_valid_action resume paused = true
is_valid_action stop moving = true
is_valid_action stop paused = true
is_valid_action _ _ = false

-- `matches!(action, Start | Resume)`
abbrev pub enables_motion : MotionAction → Bool
enables_motion start = true
enables_motion resume = true
enables_motion _ = false

abbrev resets_index : MotionAction → Bool
resets_index start = true
resets_index stop = true
resets_index _ = false

unfoldable pub move : MotionAction → Core → Core
move action k =
    let moved = set_enabled k.interface.commands.power_enabled (enables_motion action) k in
    let actions = moved.interface.actions in
    record moved {
      interface = record moved.interface {
        actions = if resets_index action then send_action action_reset_index actions else actions;
      };
    }

abbrev pub is_errored : DriveState → Bool
is_errored errored = true
is_errored _ = false

module _ (ui : HidUi) where
  unfoldable pub set_drive_power : ControllerId → ℕ → Bool → Act ui (Unit {0})
  set_drive_power id seq enabled =
      for_holder ui id seq (do update_core ui (power enabled); succeed ui id seq)

  unfoldable pub set_motion_state : ControllerId → ℕ → MotionAction → Act ui (Unit {0})
  set_motion_state id seq action = for_holder ui id seq (λ s.
      if is_valid_action action s.core.core_state.drive_state
      then (do update_core ui (move action); succeed ui id seq) s
      else fail ui id seq invalid_state s)

  unfoldable pub acknowledge_error : ControllerId → ℕ → Act ui (Unit {0})
  acknowledge_error id seq = for_holder ui id seq (λ s.
      if is_errored s.core.core_state.drive_state
      then (do update_core ui (add_action action_ack_error); succeed ui id seq) s
      else fail ui id seq invalid_state s)
