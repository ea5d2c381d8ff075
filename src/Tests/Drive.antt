-- ===== src/Tests/Drive.antt =====
-- Concrete runs of the drive thread's functions.
use puddle.Base.{◌*◌, ◌%◌, ◌≤◌, ◌≡◌, ◌≢◌, refl, Bool, true, false, none, some, [], ◌∷◌, ◌⊎◌, arith}
use puddle.Base.Int.{pos, pos_part, ◌-ℤ◌, ◌≤ℤ◌, unsigned_abs}
use puddle.Linmot.Bitflags.{test_bit}
use puddle.Linmot.Mci
use puddle.Linmot.Mci.Decode.{operation_enabled, state_from}
use puddle.Linmot.Udp.{Response, no_response, response_state}
use puddle.Messages.{MotionCommand}
use puddle.Drive.Words.{i32_max}
use puddle.Drive.Connection.{Connection, default_interface, default_request}
use puddle.Drive.Clamp.{clamp_deceleration, recovery}
use puddle.Drive.Clamp.Room.{IsInput, clamp_stops, clamp-le, room}
use puddle.Drive.Clamp.Recovery.{recovery_bounds, recovery_mono, recovery_ends}
use puddle.Drive.Next.{compute_next_request}
use puddle.Drive.Next.Issued.{IsIssued, compute_next_request-issues}
use puddle.Drive.Next.Power.{IsHomed, compute_next_request-only, compute_next_request-power_off}
use puddle.Drive.Tick.{Environment, DriveThread, loop_tick}
use puddle.Drive.Tick.Outcome.{Outcome, loop_tick-Outcome}
use puddle.Tests.Flags.{bits}

-- 10 mm before a target, at 1 m/s.
approach : IsInput (pos 90000) (pos 1000000) (pos 100000) (pos 5000) (pos 50000)
unfolding ◌-ℤ◌
approach = record {
  velocity = omega arith;
  requested_pos = omega arith;
  requested_lt = omega arith;
  range = omega arith;
}

clamp_stops_example :
    (unsigned_abs (pos 1000000) * unsigned_abs (pos 1000000)
      ≤ 2
        * pos_part (
            clamp_deceleration
              (pos 90000)
              (pos 1000000)
              (pos 100000)
              (pos 5000)
              none
              (pos 50000)
              (pos 75000)
              (pos 300000))
        * room none (pos 90000) (pos 1000000) (pos 100000) (pos 50000))
    ⊎ (clamp_deceleration
          (pos 90000)
          (pos 1000000)
          (pos 100000)
          (pos 5000)
          none
          (pos 50000)
          (pos 75000)
          (pos 300000)
        ≡ pos i32_max)
unfolding ◌-ℤ◌
clamp_stops_example =
    clamp_stops (pos 90000) (pos 1000000) (pos 100000) (pos 5000) none (pos 50000) (pos 75000)
      (pos 300000) approach (λ e. cc) (omega arith) (omega arith)

clamp-le_example :
    pos 5000
    ≤ℤ clamp_deceleration
        (pos 90000)
        (pos 1000000)
        (pos 100000)
        (pos 5000)
        none
        (pos 50000)
        (pos 75000)
        (pos 300000)
unfolding ◌-ℤ◌
clamp-le_example =
    clamp-le (pos 90000) (pos 1000000) (pos 100000) (pos 5000) none (pos 50000) (pos 75000)
      (pos 300000) approach refl

recovery_bounds_example :
    (pos 75000 ≤ℤ recovery 70000 50000 (pos 75000) (pos 300000))
    × (recovery 70000 50000 (pos 75000) (pos 300000) ≤ℤ pos 300000)
recovery_bounds_example =
    recovery_bounds 50000 75000 300000 (omega arith) (omega arith) 70000 (omega arith)

recovery_mono_example :
    recovery 70000 50000 (pos 75000) (pos 300000) ≤ℤ recovery 80000 50000 (pos 75000) (pos 300000)
recovery_mono_example =
    recovery_mono 50000 75000 300000 (omega arith) (omega arith) 70000 80000 (omega arith)
      (omega arith)

recovery_ends_example :
    (recovery 50000 50000 (pos 75000) (pos 300000) ≡ pos 75000)
    × (recovery (2 * 50000) 50000 (pos 75000) (pos 300000) ≡ pos 300000)
recovery_ends_example =
    recovery_ends 50000 75000 300000 (omega arith) (omega arith) (omega arith) (omega arith)

-- A connection whose drive is homed and in operation, with two commands.
abbrev homed_response : Response
homed_response = record no_response {
  raw_state = some 2181;
  demand_position = some (pos 90000);
  monitoring_channel = some (1000000, 500, 30, 40);
}

abbrev out_command : MotionCommand
out_command = record {
  position = pos 100000;
  velocity = pos 1000000;
  acceleration = pos 5000;
  deceleration = pos 5000;
}

abbrev back_command : MotionCommand
back_command = record {
  position = pos 0;
  velocity = pos 1000000;
  acceleration = pos 5000;
  deceleration = pos 5000;
}

abbrev connection : Bool → Connection
connection power = record {
  interval = 2000;
  overshoot_margin = pos 50000;
  hard_deceleration_min = pos 75000;
  hard_deceleration_max = pos 300000;
  buffer = [];
  control_flags = 1;
  next_motion_command = none;
  power_enabled = power;
  motion_enabled = true;
  active_command_index = 0;
  active_command_has_approached = false;
  active_approach_direction = none;
  input_commands = out_command ∷ back_command ∷ [];
  last_request = default_request;
  last_response = homed_response;
  last_command_index = 0;
  last_state = operation_enabled 5 false false false true;
}

in_operation : response_state homed_response ≡ some (operation_enabled 5 false false false true)
unfolding response_state state_from
in_operation = refl

compute_next_request-issues_example :
    (mc : Mci.MotionCommand) × (IsIssued 5
        (connection true)
        (compute_next_request bits (connection true))
        mc
      × (mc.count ≢ 5 % 16))
compute_next_request-issues_example =
    compute_next_request-issues bits (connection true) 5 false false false (pos 90000) 1000000 500
      30 40 refl in_operation refl refl

in_flight :
    (mc : Mci.MotionCommand) × (IsIssued 5
        (connection true)
        (compute_next_request bits (connection true))
        mc
      × (mc.count ≢ 5 % 16))
in_flight =
    compute_next_request-issues bits (connection true) 5 false false false (pos 90000) 1000000 500
      30 40 refl in_operation refl refl

compute_next_request-only_example :
    ((connection true).power_enabled ≡ true)
    × IsHomed (response_state (connection true).last_response)
compute_next_request-only_example =
    compute_next_request-only bits (connection true) in_flight.0 refl in_flight.1.0.issued

compute_next_request-power_off_example :
    (test_bit (compute_next_request bits (connection false)).control_flags 0 ≡ false)
    × ((compute_next_request bits (connection false)).next_motion_command ≡ none)
compute_next_request-power_off_example = compute_next_request-power_off bits (connection false) refl

-- A cycle in which the drive does not answer.
abbrev silence : Environment
silence = record { exchange = λ _. none; lock_free = true; core_listens = true }

abbrev thread : DriveThread
thread = record {
  connection = connection true;
  interface = record default_interface { actions = 1 };
  feedback = [];
}

loop_tick-Outcome_example : Outcome thread (loop_tick bits silence thread)
loop_tick-Outcome_example = loop_tick-Outcome bits silence thread
