-- ===== src/Drive/Next.antt =====
-- src/drive.rs: `compute_next_request`, the control flags and the motion command of the next cycle.
pub mod Issued
pub mod Power
use puddle.Base.{
  ℕ, zero, suc, ◌+◌, ◌-◌, ◌%◌, ◌^◌, Bool, true, false, not, ◌&&◌, ◌||◌, Option, none, some, List,
  [], ◌∷◌, is_none, ltb, length, if◌then◌else◌,
}
use puddle.Base.Int.{ℤ, pos, ◌-ℤ◌, ◌==ℤ◌, signum, signed, wrap}
use puddle.Linmot.Units.{Position, Velocity, Acceleration}
use puddle.Linmot.Bitflags.{Bitflags}
use puddle.Linmot.Mci
use puddle.Linmot.Mci.Commands.{Command, vai_stop, vai_go_to_pos}
use puddle.Linmot.Mci.Decode.{
  State, not_ready_to_switch_on, ready_to_switch_on, operation_enabled, homing,
}
use puddle.Linmot.Udp.{Response, response_state}
use puddle.Messages.{MotionCommand}
use puddle.Drive.Connection.{Connection, command_at}
use puddle.Drive.Clamp.{clamp_deceleration}
use puddle.Drive.Arrival.{target_reached}

unfoldable pub normalize_direction : ℤ → Option ℤ
normalize_direction direction = if signum direction ==ℤ pos 0 then none else some (signum direction)

-- The index before `i` in the cycle of commands.
abbrev pub previous : List MotionCommand → ℕ → ℕ
previous commands i = (i + length commands - 1) % length commands

unfoldable pub effective_clamp_target_after_handoff :
    List MotionCommand → ℕ → Bool → Option ℤ → Position → Option ℤ → Position × Option ℤ
unfolding normalize_direction
effective_clamp_target_after_handoff commands index has_approached direction fallback
      fallback_direction =
    if has_approached || (is_none direction || ltb (length commands) 2)
    then (fallback, fallback_direction)
    else let prev = previous commands index in
      let prev_target = (command_at commands prev).position in
      let prev_prev_target = (command_at commands (previous commands prev)).position in
      (prev_target, normalize_direction (wrap 32 (prev_target -ℤ prev_prev_target)))

-- `(a.0 - b.0).signum()` of two positions.
abbrev pub leg_direction : Position → Position → ℤ
leg_direction a b = signum (wrap 32 (a -ℤ b))

-- What follows once a waypoint is reached: the next index, the new approach direction, and the
-- direction of the leg that is complete.
abbrev pub next_index : Connection → ℕ
next_index c = (c.active_command_index + 1) % length c.input_commands

-- The two cases of `target_reached`: the connection, and what to clamp against.
unfoldable pub advance : Connection → Position → Bool → Connection × (Position × Option ℤ)
unfolding normalize_direction
advance c current_target true =
    let prev_target =
      (command_at c.input_commands (previous c.input_commands c.active_command_index)).position in
    let next_command = command_at c.input_commands (next_index c) in
    (
      record c {
        active_command_index = next_index c;
        active_command_has_approached = false;
        active_approach_direction =
            normalize_direction (leg_direction next_command.position current_target);
      },
      (current_target, some (leg_direction current_target prev_target)),
    )
advance c current_target false = (c, (current_target, c.active_approach_direction))

-- The command for the drive, once the active command and the clamp target are known.
unfoldable pub issue :
    Connection → ℕ → Position → Velocity → Position → Option ℤ → Mci.MotionCommand
issue c count position v clamp_target clamp_direction =
    let input = command_at c.input_commands c.active_command_index in
    let deceleration = λ (requested : Acceleration).
      clamp_deceleration position v clamp_target requested clamp_direction c.overshoot_margin
        c.hard_deceleration_min c.hard_deceleration_max in
    if not c.motion_enabled
    then record { count = count; command = vai_stop (deceleration c.hard_deceleration_min) }
    else record {
      count = count;
      command =
          vai_go_to_pos input.position input.velocity input.acceleration
            (deceleration input.deceleration);
    }

-- The index into the commands, the arrival test and what follows from it.
unfoldable pub arrive :
    Connection → Position → Velocity → Acceleration → Connection × (Position × Option ℤ)
arrive c position v a =
    let c0 = record c { active_command_index = c.active_command_index % length c.input_commands } in
    let current_target = (command_at c0.input_commands c0.active_command_index).position in
    let r = target_reached c0 current_target position v a in
    advance (record c0 { active_command_has_approached = r.0 }) current_target r.1

-- The clamp target, and the command.
unfoldable pub finish : Connection → ℕ → Position → Velocity → Position × Option ℤ → Connection
finish c count position v (fallback, fallback_direction) =
    let clamp =
      effective_clamp_target_after_handoff c.input_commands c.active_command_index
        c.active_command_has_approached c.active_approach_direction fallback fallback_direction in
    record c { next_motion_command = some (issue c count position v clamp.0 clamp.1) }

-- From the arrival test on, with a list of commands that is not empty.
unfoldable pub track : Connection → ℕ → Position → Velocity → Acceleration → Connection
track c count position v a = let r = arrive c position v a in finish r.0 count position v r.1

-- `motion_command_count.wrapping_add(1) & 0xF` of a u8.
abbrev pub next_count : ℕ → ℕ
next_count count = (count + 1) % 256 % 16

abbrev is_empty : List MotionCommand → Bool
is_empty [] = true
is_empty (_ ∷ _) = false

-- The motion command of a drive that is homed and enabled.
unfoldable pub command_enabled : Connection → ℕ → Position → ℕ → ℕ → Connection
command_enabled c motion_command_count position raw_velocity raw_acceleration =
    let count = next_count motion_command_count in
    if is_empty c.input_commands
    then record c {
      next_motion_command =
          some (record { count = count; command = vai_stop c.hard_deceleration_min });
    }
    else track c count position (signed 32 raw_velocity) (signed 32 raw_acceleration)

-- The `let … else` that asks for a homed and enabled drive, its demand position and its channels.
unfoldable pub command_next :
    Connection → State → Option Position → Option (ℕ × ℕ × ℕ × ℕ) → Connection
unfolding command_enabled
command_next c (operation_enabled count e m i true) (some position)
      (some (velocity, acceleration, x, y)) =
    command_enabled c count position velocity acceleration
command_next c _ _ _ = c

module _ (bitflags : Bitflags) where
  -- SWITCH_ON is bit 0, HOME bit 11.
  unfoldable pub control_flags_for : State → Bool → ℕ → ℕ
  control_flags_for not_ready_to_switch_on power flags = 0
  control_flags_for ready_to_switch_on power flags = if power then 2 ^ 0 else flags
  control_flags_for (operation_enabled n e m i false) power flags = bitflags.insert flags (2 ^ 11)
  control_flags_for (homing true) power flags = bitflags.remove flags (2 ^ 11)
  control_flags_for _ power flags = flags

  unfoldable pub compute_in_state : Connection → State → Connection
  unfolding control_flags_for
  compute_in_state c state =
      let flags = control_flags_for state c.power_enabled c.control_flags in
      if not c.power_enabled
      then record c { control_flags = bitflags.remove flags (2 ^ 0) }
      else command_next (record c { control_flags = flags }) state c.last_response.demand_position
          c.last_response.monitoring_channel

  -- Without a valid response all control flags are cleared.
  unfoldable pub compute_next_request : Connection → Connection
  unfolding compute_in_state
  compute_next_request c = elim (response_state c.last_response) [
    | none ↦ record c { control_flags = 0 }
    | some state ↦ compute_in_state c state
  ]
