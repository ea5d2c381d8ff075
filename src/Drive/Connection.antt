-- ===== src/Drive/Connection.antt =====
-- src/drive.rs: what core and drive thread share, and the state of a connection.
use Prim.Native.Nat.{bit_or}
use puddle.Base.{ℕ, Bool, false, Option, none, List, [], replicate, get_or}
use puddle.Base.Int.{ℤ, pos}
use puddle.Linmot.Units.{
  Position, Velocity, Acceleration, Current, DriveTemperature, MotorTemperature,
}
use puddle.Linmot.Mci
use puddle.Linmot.Mci.Decode.{State, ErrorCode, no_error, not_ready_to_switch_on}
use puddle.Linmot.Udp.{Request, Response, no_response, buffer_size}
use puddle.Messages.{DriveState, disconnected, MotionCommand}

-- Core->Drive communication, behind a mutex.
pub record DriveCommands : Type 0 where
  pub power_enabled : Bool
  pub motion_enabled : Bool
  pub commands : List MotionCommand

abbrev pub action_reset_index : ℕ
action_reset_index = 1

abbrev pub action_ack_error : ℕ
action_ack_error = 2

-- `DriveActions::send`: a fetch_or on the pending bits, a u8.
unfoldable pub send_action : ℕ → ℕ → ℕ
send_action bits pending = bit_or pending bits

-- `DriveActions::take`: a swap with 0. The bits taken, and the pending bits left.
unfoldable pub take_actions : ℕ → ℕ × ℕ
take_actions pending = (pending, 0)

-- `DriveInterface`
pub record DriveInterface : Type 0 where
  pub commands : DriveCommands
  pub actions : ℕ

-- `DriveInterface::default()`
abbrev pub default_interface : DriveInterface
default_interface = record {
  commands = record { power_enabled = false; motion_enabled = false; commands = [] };
  actions = 0;
}

-- Drive->Core communication.
pub record DriveFeedback : Type 0 where
  pub drive_state : DriveState
  pub active_command_index : ℕ
  pub actual_position : Position
  pub demand_position : Position
  pub demand_velocity : Velocity
  pub demand_acceleration : Acceleration
  pub current_draw : Current
  pub warning_flags : ℕ
  pub error_code : ErrorCode
  pub drive_temperature : DriveTemperature
  pub motor_temperature : MotorTemperature

-- `DriveFeedback::default()`
abbrev pub default_feedback : DriveFeedback
default_feedback = record {
  drive_state = disconnected;
  active_command_index = 0;
  actual_position = pos 0;
  demand_position = pos 0;
  demand_velocity = pos 0;
  demand_acceleration = pos 0;
  current_draw = pos 0;
  warning_flags = 0;
  error_code = no_error;
  drive_temperature = pos 0;
  motor_temperature = pos 0;
}

-- The socket, the channels and the measured round trip are outside; `interval` is in microseconds.
pub record Connection : Type 0 where
  pub interval : ℕ
  pub overshoot_margin : Position
  pub hard_deceleration_min : Acceleration
  pub hard_deceleration_max : Acceleration
  pub buffer : List ℕ
  pub control_flags : ℕ
  pub next_motion_command : Option Mci.MotionCommand
  pub power_enabled : Bool
  pub motion_enabled : Bool
  pub active_command_index : ℕ
  pub active_command_has_approached : Bool
  pub active_approach_direction : Option ℤ
  pub input_commands : List MotionCommand
  pub last_request : Request
  pub last_response : Response
  pub last_command_index : ℕ
  pub last_state : State

abbrev pub default_request : Request
default_request = record {
  control_flags = none;
  motion_command = none;
  realtime_configuration = none;
  response_flags = 0;
}

-- The literal in `Connection::new`.
unfoldable pub new_connection : ℕ → Position → Acceleration → Acceleration → Connection
new_connection interval overshoot_margin hard_deceleration_min hard_deceleration_max = record {
  interval = interval;
  overshoot_margin = overshoot_margin;
  hard_deceleration_min = hard_deceleration_min;
  hard_deceleration_max = hard_deceleration_max;
  buffer = replicate buffer_size 0;
  control_flags = 0;
  next_motion_command = none;
  power_enabled = false;
  motion_enabled = false;
  active_command_index = 0;
  active_command_has_approached = false;
  active_approach_direction = none;
  input_commands = [];
  last_request = default_request;
  last_response = no_response;
  last_command_index = 0;
  last_state = not_ready_to_switch_on;
}

abbrev pub no_command : MotionCommand
no_command = record {
  position = pos 0;
  velocity = pos 0;
  acceleration = pos 0;
  deceleration = pos 0;
}

-- `commands[i]`; the code indexes within the length only, and what is past it is not reached.
abbrev pub command_at : List MotionCommand → ℕ → MotionCommand
command_at commands i = get_or commands i no_command
