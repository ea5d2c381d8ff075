-- ===== src/Drive/Tick.antt =====
-- src/drive.rs: `send_request` and `loop_tick`, one cycle of the drive thread. The socket is outside
-- the program: a cycle is given what the drive answers to the datagram sent.
pub mod Outcome
use puddle.Base.{
  ℕ, ◌-◌, ◌%◌, ◌^◌, Bool, true, false, Option, none, some, List, ◌∷◌, ◌++◌, if◌then◌else◌, take,
  drop, length,
}
use puddle.Base.Exec.{Result, ok, err, Exec, pure, ◌>>=◌, ◌>>◌}
use puddle.Base.Int.{signed}
use puddle.Linmot.Bitflags.{Bitflags, test_bit}
use puddle.Linmot.Reader.{ReadError}
use puddle.Linmot.Writer.{WriteError}
use puddle.Linmot.Mci.Decode.{State, ErrorCode, ready_to_switch_on, operation_enabled}
use puddle.Linmot.Udp.{
  Request, Response, response_state, response_error_code, to_wire, from_wire, buffer_size,
}
use puddle.Linmot.Units.{Position, Current}
use puddle.Messages.{DriveState, off, preparing, paused, moving, errored}
use puddle.Drive.Connection.{Connection, DriveInterface, DriveFeedback, take_actions}
use puddle.Drive.Next.{compute_next_request}

pub data TickError : Type 0 where
  write_error : WriteError → TickError
  read_error : ReadError → TickError
  io_error core_gone : TickError

-- What one cycle meets: the answer of the drive to a datagram (`none` is an I/O error or a timeout),
-- whether the mutex of the commands is free, and whether the core still receives.
pub record Environment : Type 0 where
  pub exchange : List ℕ → Option (List ℕ)
  pub lock_free : Bool
  pub core_listens : Bool

-- The drive thread: its connection, the interface that it shares with the core, and the feedback
-- sent so far, the newest first.
pub record DriveThread : Type 0 where
  pub connection : Connection
  pub interface : DriveInterface
  pub feedback : List DriveFeedback

abbrev pub Tick : Type 0 → Type 0
Tick A = Exec DriveThread TickError A

abbrev pub update : (Connection → Connection) → Tick (Unit {0})
update f t = (ok tt, record t { connection = f t.connection })

unfoldable pub drive_state : State → Bool → DriveState
drive_state ready_to_switch_on motion_enabled = off
drive_state (operation_enabled n e m i true) motion_enabled =
    if motion_enabled then moving else paused
drive_state (State.error e) motion_enabled = errored
drive_state _ motion_enabled = preparing

-- The tuple pattern of the code: all seven parts, or no feedback.
unfoldable pub feedback_parts :
    Option State
    → Option Position
    → Option Position
    → Option Current
    → Option ℕ
    → Option ErrorCode
    → Option (ℕ × ℕ × ℕ × ℕ)
    → Connection
    → Option (State × DriveFeedback)
unfolding drive_state
feedback_parts (some state) (some actual) (some demand) (some current) (some warnings) (some e)
      (some (velocity, acceleration, drive_temperature, motor_temperature)) c =
    some (
      state,
      record {
        drive_state = drive_state state c.motion_enabled;
        active_command_index = c.active_command_index;
        actual_position = actual;
        demand_position = demand;
        demand_velocity = signed 32 velocity;
        demand_acceleration = signed 32 acceleration;
        current_draw = current;
        warning_flags = warnings;
        error_code = e;
        drive_temperature = signed 16 (drive_temperature % 2 ^ 16);
        motor_temperature = signed 16 (motor_temperature % 2 ^ 16);
      },
    )
feedback_parts _ _ _ _ _ _ _ c = none

unfoldable pub feedback_of : Connection → Option (State × DriveFeedback)
unfolding feedback_parts
feedback_of c =
    feedback_parts (response_state c.last_response) c.last_response.actual_position
      c.last_response.demand_position c.last_response.current c.last_response.warning_flags
      (response_error_code c.last_response) c.last_response.monitoring_channel c

-- `log_state_change` leaves the new state behind; the log is not modelled.
unfoldable pub send_feedback : Environment → Option (State × DriveFeedback) → Tick (Unit {0})
send_feedback env none = pure tt
send_feedback env (some (state, feedback)) = do
  update (λ c. record c { last_state = state })
  λ t.
      if env.core_listens
      then (ok tt, record t { feedback = feedback ∷ t.feedback })
      else (err core_gone, t)

module _ (bitflags : Bitflags) where
  -- What arrives is cut to the buffer.
  unfoldable pub receive : Option (List ℕ) → Tick Response
  receive none t = (err io_error, t)
  receive (some datagram) t =
      let received = take buffer_size datagram in
      let c = record t.connection {
        buffer = received ++ drop (length received) t.connection.buffer;
      } in
      (
        elim (from_wire bitflags received) [
          | ok response ↦ ok response
          | err e ↦ err (read_error e)
        ],
        record t { connection = c },
      )

  unfoldable pub transmit : Environment → Result WriteError ℕ → Tick Response
  unfolding receive
  transmit env (err e) t = (err (write_error e), t)
  transmit env (ok to_send) t = receive (env.exchange (take to_send t.connection.buffer)) t

  unfoldable pub send_request : Environment → Request → Tick Response
  unfolding transmit
  send_request env request t =
      let (r, buffer) = to_wire bitflags request t.connection.buffer in
      transmit env r (record t { connection = record t.connection { buffer = buffer } })

  -- Step 3: the actions, then the commands if the lock is free.
  unfoldable pub read_interface : Environment → Tick (Unit {0})
  unfolding take_actions
  read_interface env t =
      let (actions, left) = take_actions t.interface.actions in
      let c0 = t.connection in
      let c1 =
        if test_bit actions 0
        then record c0 {
          active_command_index = 0;
          active_command_has_approached = false;
          active_approach_direction = none;
        }
        else c0 in
      let c2 =
        if test_bit actions 1
        then record c1 { control_flags = bitflags.insert c1.control_flags (2 ^ 7) }
        else c1 in
      let shared = t.interface.commands in
      let c3 =
        if env.lock_free
        then record c2 {
          power_enabled = shared.power_enabled;
          motion_enabled = shared.motion_enabled;
          input_commands = shared.commands;
        }
        else c2 in
      (ok tt, record t { connection = c3; interface = record t.interface { actions = left } })

  -- The request of step 1. `ResponseFlags::all()` is the nine flags.
  unfoldable pub next_request : Connection → Request
  next_request c = record {
    control_flags = some c.control_flags;
    motion_command = c.next_motion_command;
    realtime_configuration = none;
    response_flags = 2 ^ 9 - 1;
  }

  -- The steps after feedback, which cannot fail.
  unfoldable pub settle : Environment → Tick (Unit {0})
  unfolding read_interface
  settle env = do read_interface env; update (compute_next_request bitflags)

  -- The steps from the response on.
  unfoldable pub conclude : Environment → Request → Response → Tick (Unit {0})
  unfolding settle
  conclude env request response = do
    update (λ c. record c {
      last_response = response;
      last_request = request;
      last_command_index = c.active_command_index;
    })
    λ u. send_feedback env (feedback_of u.connection) u
    settle env

  unfoldable pub loop_tick : Environment → Tick (Unit {0})
  unfolding next_request send_request conclude
  loop_tick env t =
      let request = next_request t.connection in
      (do
        update (λ c. record c { next_motion_command = none })
        response ← send_request env request
        conclude env request response)
        t
