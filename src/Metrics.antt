-- ===== src/Metrics.antt =====
-- src/metrics.rs and `record_metrics` of src/drive.rs: the record of a cycle, its row, and the thread
-- that sends rows. The database client is outside the program: what it answers is given.
pub mod Kept
use Prim.Native.String.{String}
use puddle.Base.{
  ℕ, ◌+◌, ◌*◌, ◌%◌, ◌^◌, min, Bool, true, false, not, ◌||◌, Option, none, some, List, [], ◌∷◌, ◌++◌,
  ltb, if◌then◌else◌,
}
use puddle.Base.Exec.{Result, ok, err}
use puddle.Base.Int.{ℤ, pos, signed}
use puddle.Linmot.Units.{
  Position, Velocity, Acceleration, Current, DriveTemperature, MotorTemperature,
}
use puddle.Linmot.Mci.{MotionCommand}
use puddle.Linmot.Mci.Commands.{Command, vai_go_to_pos}
use puddle.Linmot.Udp.{Request, Response}

pub record RecordCommand : Type 0 where
  pub position : Position
  pub velocity : Velocity
  pub acceleration : Acceleration
  pub deceleration : Acceleration

-- The times are in microseconds.
pub record Record : Type 0 where
  pub processing_time : ℕ
  pub response_time : ℕ
  pub active_command_index : ℕ
  pub command : Option RecordCommand
  pub control_flags : ℕ
  pub status_flags : ℕ
  pub raw_state : ℕ
  pub actual_position : Position
  pub demand_position : Position
  pub demand_velocity : Velocity
  pub demand_acceleration : Acceleration
  pub motor_current : Current
  pub warning_flags : ℕ
  pub raw_error_code : ℕ
  pub drive_temperature : DriveTemperature
  pub motor_temperature : MotorTemperature

-- What a record misses; and what a row does.
pub data MetricsError : Type 0 where
  no_monitoring_channel no_control_flags no_status_flags no_state : MetricsError
  no_actual_position no_demand_position no_current no_warning_flags no_error_code : MetricsError
  out_of_i64 : MetricsError

abbrev pub Fallible : Type 0 → Type 0
Fallible A = Result MetricsError A

-- `ok_or_else(…)?`
abbrev pub need : {A B : Type 0} → Option A → MetricsError → (A → Fallible B) → Fallible B
need (some a) e f = f a
need none e f = err e

abbrev pub command_of : Command → Option RecordCommand
command_of (vai_go_to_pos p v a d) =
    some (record { position = p; velocity = v; acceleration = a; deceleration = d })
command_of _ = none

abbrev pub record_command : Option MotionCommand → Option RecordCommand
record_command (some m) = command_of m.command
record_command none = none

-- `n as i16` of a u32.
abbrev pub low_i16 : ℕ → ℤ
low_i16 n = signed 16 (n % 2 ^ 16)

-- `Record::new`; its time stamp is not modelled.
unfoldable pub new_record : ℕ → ℕ → ℕ → Request → Response → Fallible Record
new_record loop_duration last_rtt active_command_index request response =
    need response.monitoring_channel no_monitoring_channel (λ (channels : ℕ × ℕ × ℕ × ℕ).
      need request.control_flags no_control_flags (λ control_flags.
        need response.status_flags no_status_flags (λ status_flags.
          need response.raw_state no_state (λ raw_state.
            need response.actual_position no_actual_position (λ actual_position.
              need response.demand_position no_demand_position (λ demand_position.
                need response.current no_current (λ current.
                  need response.warning_flags no_warning_flags (λ warning_flags.
                    need response.raw_error_code no_error_code (λ raw_error_code. ok (record {
                      processing_time = loop_duration;
                      response_time = last_rtt;
                      active_command_index = active_command_index;
                      command = record_command request.motion_command;
                      control_flags = control_flags;
                      status_flags = status_flags;
                      raw_state = raw_state;
                      actual_position = actual_position;
                      demand_position = demand_position;
                      demand_velocity = signed 32 channels.0;
                      demand_acceleration = signed 32 channels.1;
                      motor_current = current;
                      warning_flags = warning_flags;
                      raw_error_code = raw_error_code;
                      drive_temperature = low_i16 channels.2;
                      motor_temperature = low_i16 channels.3;
                    }))))))))))

-- A column of a row: its name and an i64.
abbrev pub Column : Type 0
Column = String × ℤ

-- `i64::try_from`
abbrev pub to_i64 : ℕ → Fallible ℤ
to_i64 n = if ltb n (2 ^ 63) then ok (pos n) else err out_of_i64

abbrev pub command_columns : Option RecordCommand → List Column
command_columns none = []
command_columns (some c) =
    ("command_position", c.position)
    ∷ ("command_velocity", c.velocity)
    ∷ ("command_acceleration", c.acceleration)
    ∷ ("command_deceleration", c.deceleration)
    ∷ []

abbrev pub state_columns : Record → List Column
state_columns r =
    ("control_flags", pos r.control_flags)
    ∷ ("status_flags", pos r.status_flags)
    ∷ ("state", pos r.raw_state)
    ∷ ("actual_position", r.actual_position)
    ∷ ("demand_position", r.demand_position)
    ∷ ("demand_velocity", r.demand_velocity)
    ∷ ("demand_acceleration", r.demand_acceleration)
    ∷ ("motor_current", r.motor_current)
    ∷ ("warning_flags", pos r.warning_flags)
    ∷ ("error_code", pos r.raw_error_code)
    ∷ ("drive_temperature", r.drive_temperature)
    ∷ ("motor_temperature", r.motor_temperature)
    ∷ []

abbrev pub then_column :
    String
    → Fallible ℤ
    → (List Column → Fallible (List Column))
    → List Column
    → Fallible (List Column)
then_column name (ok v) f columns = f (columns ++ ((name, v) ∷ []))
then_column name (err e) f columns = err e

-- `add_to_buffer`, the columns of one row.
unfoldable pub add_to_buffer : Record → Fallible (List Column)
add_to_buffer r =
    then_column "processing_time" (to_i64 r.processing_time)
      (then_column "response_time" (to_i64 r.response_time) (
        then_column "active_command" (to_i64 r.active_command_index)
          (λ columns. ok (columns ++ (command_columns r.command ++ state_columns r)))))
      []

-- The answer of the client's `flush`. One that fails may yet have stored rows, any of the buffer.
pub data Flush : Type 0 where
  flushed : Flush
  failed : (Record → Bool) → Flush

abbrev pub stored : (Record → Bool) → List Record → List Record
stored f [] = []
stored f (r ∷ rows) = if f r then r ∷ stored f rows else stored f rows

-- What one pass of the inner loop meets: whether the connection is beyond repair, whether a new one
-- is made, whether the buffer takes the row, whether it is time to flush, and what the flush does.
pub record Attempt : Type 0 where
  pub must_close : Bool
  pub connects : Bool
  pub adds : Bool
  pub is_due : Bool
  pub flush : Flush

-- The whole rows in the buffer, the newest first, and the rows of the database; the time is in seconds.
-- What the client keeps of a row that it did not take shows in its later answers only.
pub record Sender : Type 0 where
  pub is_connected : Bool
  pub retry_time : ℕ
  pub buffer : List Record
  pub table : List Record

-- Whether the row is in the buffer, and whether the loop is left.
pub record Pass : Type 0 where
  pub added : Bool
  pub is_done : Bool
  pub sender : Sender

-- The client's `flush` empties the buffer when it succeeds only.
unfoldable pub flush_rows : Attempt → Sender → Pass
flush_rows a s =
    if not a.is_due then record { added = true; is_done = true; sender = s } else elim a.flush [
      | flushed ↦ record {
        added = true;
        is_done = true;
        sender = record s { buffer = []; table = s.buffer ++ s.table };
      }
      | failed f ↦ record {
        added = true;
        is_done = false;
        sender = record s { is_connected = false; table = stored f s.buffer ++ s.table };
      }
    ]

unfoldable pub add_row : Attempt → Record → Bool → Sender → Pass
unfolding flush_rows
add_row a r true s = flush_rows a s
add_row a r false s =
    if a.adds
    then flush_rows a (record s { buffer = r ∷ s.buffer })
    else record { added = false; is_done = true; sender = s }

unfoldable pub pass : Attempt → Record → Bool → Sender → Pass
unfolding add_row
pass a r added s =
    if not s.is_connected || a.must_close
    then (if a.connects
        then add_row a r added (record s { is_connected = true; retry_time = 1 })
        else record {
          added = added;
          is_done = false;
          sender = record s { is_connected = false; retry_time = min (s.retry_time * 10) 30 };
        })
    else add_row a r added s

-- The inner loop for one record, as far as the attempts go.
unfoldable pub send_record : List Attempt → Record → Bool → Sender → Pass
unfolding pass
send_record [] r added s = record { added = added; is_done = false; sender = s }
send_record (a ∷ attempts) r added s =
    let p = pass a r added s in
    let rest = send_record attempts r p.added p.sender in if p.is_done then p else rest
