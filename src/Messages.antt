-- ===== src/Messages.antt =====
-- src/messages.rs and src/lib.rs: the types that controllers, core and drive exchange. What serde
-- derives, the JSON text, is not modelled.
use Prim.Native.String.{String}
use puddle.Base.{ℕ, Bool, true, false, not, ◌||◌, Option, none, some, List, if◌then◌else◌}
use puddle.Base.Int.{ℤ, ◌==ℤ◌}
use puddle.Linmot.Units.{
  Position, Velocity, Acceleration, Current, DriveTemperature, MotorTemperature,
}

pub data DriveState : Type 0 where
  disconnected off preparing paused moving errored : DriveState

-- A single motion command in a command set.
pub record MotionCommand : Type 0 where
  pub position : Position
  pub velocity : Velocity
  pub acceleration : Acceleration
  pub deceleration : Acceleration

pub record MotionCommandFields : Type 0 where
  pub position : Option Position
  pub velocity : Option Velocity
  pub acceleration : Option Acceleration
  pub deceleration : Option Acceleration

-- `if let Some(x) = fields.x { if self.x != x { self.x = x; changed = true } }`
abbrev pub apply_field : Option ℤ → ℤ → ℤ × Bool
apply_field none old = (old, false)
apply_field (some new) old = if not (old ==ℤ new) then (new, true) else (old, false)

-- The updated command, and whether anything changed.
unfoldable pub apply_fields : MotionCommand → MotionCommandFields → MotionCommand × Bool
apply_fields c f =
    let (position, position_changed) = apply_field f.position c.position in
    let (velocity, velocity_changed) = apply_field f.velocity c.velocity in
    let (acceleration, acceleration_changed) = apply_field f.acceleration c.acceleration in
    let (deceleration, deceleration_changed) = apply_field f.deceleration c.deceleration in
    (
      record {
        position = position;
        velocity = velocity;
        acceleration = acceleration;
        deceleration = deceleration;
      },
      position_changed || (velocity_changed || (acceleration_changed || deceleration_changed)),
    )

pub record SavedSetMetadata : Type 0 where
  pub name : String
  pub version : ℕ
  pub saved_at : String

-- `none` is the active command set.
abbrev pub CommandSetId : Type 0
CommandSetId = Option String

pub data MotionAction : Type 0 where
  start pause resume stop : MotionAction

pub record CommandUpdate : Type 0 where
  pub index : ℕ
  pub fields : MotionCommandFields

-- The first field of each message is `seq`.
pub data ClientMessage : Type 0 where
  request_write_access release_write_access get_state : ℕ → ClientMessage
  get_command_set : ℕ → CommandSetId → ClientMessage
  -- set, base_version, commands
  upsert_command_set : ℕ → CommandSetId → Option ℕ → List MotionCommand → ClientMessage
  update_command : ℕ → CommandUpdate → ClientMessage
  -- set, base_version
  delete_command_set : ℕ → CommandSetId → Option ℕ → ClientMessage
  list_saved_sets : ℕ → ClientMessage
  set_drive_power : ℕ → Bool → ClientMessage
  set_motion_state : ℕ → MotionAction → ClientMessage
  acknowledge_error : ℕ → ClientMessage

pub data AckFailureReason : Type 0 where
  not_writer not_found out_of_range invalid_state : AckFailureReason

pub record SystemLimits : Type 0 where
  pub position : Position
  pub velocity : Velocity
  pub acceleration : Acceleration
  pub deceleration : Acceleration

-- A WebSocket controller is known by its mio token, a usize.
pub data ControllerId : Type 0 where
  hid : ControllerId
  web_socket : ℕ → ControllerId

pub record CoreState : Type 0 where
  pub drive_state : DriveState
  pub active_command_index : ℕ
  pub actual_position : Position
  pub demand_position : Position
  pub demand_velocity : Velocity
  pub demand_acceleration : Acceleration
  pub current_draw : Current
  pub drive_temperature : DriveTemperature
  pub motor_temperature : MotorTemperature
  pub warnings : List String
  pub error_code : Option String
  pub command_set_version : ℕ
  pub write_access_holder : Option ControllerId

pub data CoreMessage : Type 0 where
  connected : ControllerId → SystemLimits → CoreState → CoreMessage
  -- seq, success, reason
  ack : ℕ → Bool → Option AckFailureReason → CoreMessage
  -- seq, granted, holder
  write_access_result : ℕ → Bool → Option ControllerId → CoreMessage
  -- seq, set, version, commands
  command_set : ℕ → CommandSetId → ℕ → List MotionCommand → CoreMessage
  -- seq, success, version
  command_result : ℕ → Bool → ℕ → CoreMessage
  saved_set_list : ℕ → List SavedSetMetadata → CoreMessage
  -- seq is `some` in a response and `none` in a broadcast
  state : Option ℕ → CoreState → CoreMessage
  command_set_changed : ℕ → Option CommandUpdate → CoreMessage
  -- holder, previous_holder
  write_access_changed : Option ControllerId → Option ControllerId → CoreMessage
