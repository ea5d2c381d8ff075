-- ===== src/Tests/Metrics.antt =====
-- A record that is sent after a connection fails.
use puddle.Base.{true, false, none, List, [], ◌∷◌}
use puddle.Base.Int.{pos}
use puddle.Metrics.{Record, Attempt, flushed, failed, Sender}

abbrev row : Record
row = record {
  processing_time = 120;
  response_time = 900;
  active_command_index = 1;
  command = none;
  control_flags = 1;
  status_flags = 3;
  raw_state = 0x0800;
  actual_position = pos 5;
  demand_position = pos 6;
  demand_velocity = pos 0;
  demand_acceleration = pos 0;
  motor_current = pos 40;
  warning_flags = 0;
  raw_error_code = 0;
  drive_temperature = pos 300;
  motor_temperature = pos 90;
}

abbrev attempts : List Attempt
attempts =
    record { must_close = false; connects = false; adds = true; is_due = true; flush = flushed }
    ∷ record {
      must_close = false;
      connects = true;
      adds = true;
      is_due = true;
      flush = failed (λ _. true);
    }
    ∷ record { must_close = false; connects = true; adds = true; is_due = true; flush = flushed }
    ∷ []

abbrev offline : Sender
offline = record { is_connected = false; retry_time = 1; buffer = []; table = [] }
