-- ===== src/Hid/Ui.antt =====
-- src/hid/ui_manager.rs: the state of `UiManager`, what it does with an input report, and the
-- messages that it sends to the core.
pub mod Variables
pub mod Report
pub mod Turning
pub mod Replay
pub mod Live
use puddle.Base.{
  ℕ, zero, suc, ◌+◌, ◌-◌, ◌*◌, ◌^◌, Bool, true, false, not, ◌&&◌, ◌||◌, Option, none, some, List,
  [], ◌∷◌, ◌++◌, if◌then◌else◌,
}
use puddle.Base.Int.{ℤ, pos, negsuc, ◌+ℤ◌, ◌*ℤ◌, ◌==ℤ◌, ltb_ℤ, unsigned_abs, clamp, wrap}
use puddle.Linmot.Units.{Position, Velocity, Acceleration}
use puddle.Messages.{
  MotionCommand, MotionCommandFields, CommandUpdate, SystemLimits, ClientMessage, update_command,
  upsert_command_set,
}

-- `DEFAULT_COMMANDS`, both the same: 1 m/s and 500 mm/s².
abbrev pub default_command : MotionCommand
default_command = record {
  position = pos 0;
  velocity = pos 1000000;
  acceleration = pos 50000;
  deceleration = pos 50000;
}

-- `[MotionCommand; 2]`
abbrev pub Commands : Type 0
Commands = MotionCommand × MotionCommand

abbrev pub to_vec : Commands → List MotionCommand
to_vec (a, b) = a ∷ b ∷ []

-- `i32::saturating_add`
abbrev pub saturating_add : ℤ → ℤ → ℤ
saturating_add a b = clamp (a +ℤ b) (negsuc (2 ^ 31 - 1)) (pos (2 ^ 31 - 1))

-- `delta * delta.abs() * 10_000` and `delta * delta.abs() * delta.abs() * 1_000`, on i32.
unfoldable pub turn_amount : ℤ → ℤ
turn_amount delta = wrap 32 (wrap 32 (delta *ℤ pos (unsigned_abs delta)) *ℤ pos 10000)

unfoldable pub fine_amount : ℤ → ℤ
fine_amount delta =
    wrap 32 (
      wrap 32 (wrap 32 (delta *ℤ pos (unsigned_abs delta)) *ℤ pos (unsigned_abs delta)) *ℤ pos 1000)

-- For a limit that is not negative; under a negative one the source's `clamp` panics, and what is
-- returned here stands for nothing.
-- `value.saturating_add(amount).clamp(0, limit)`
unfoldable pub moved : ℤ → ℤ → ℤ → ℤ
moved limit amount value = clamp (saturating_add value amount) (pos 0) limit

abbrev pub no_fields : MotionCommandFields
no_fields = record { position = none; velocity = none; acceleration = none; deceleration = none }

abbrev pub update_message : ℕ → MotionCommandFields → ClientMessage
update_message index fields = update_command 0 (record { index = index; fields = fields })

abbrev pub position_update : ℕ → Position → ClientMessage
position_update index p = update_message index (record no_fields { position = some p })

abbrev pub velocity_update : ℕ → Velocity → ClientMessage
velocity_update index v = update_message index (record no_fields { velocity = some v })

abbrev pub acceleration_update : ℕ → Acceleration → Acceleration → ClientMessage
acceleration_update index a d =
    update_message index (record no_fields { acceleration = some a; deceleration = some d })

-- Encoder 0: the start position, which pushes the end or takes it along.
unfoldable pub turn_start : SystemLimits → Bool → ℤ → Commands → Commands × List ClientMessage
turn_start limits holding_start delta (a, b) =
    let shift = moved limits.position (turn_amount delta) in
    let a' = record a { position = shift a.position } in
    let b' = record b { position = if holding_start then shift b.position else a'.position } in
    if holding_start || ltb_ℤ b.position a'.position
    then ((a', b'), position_update 0 a'.position ∷ position_update 1 b'.position ∷ [])
    else ((a', b), position_update 0 a'.position ∷ [])

-- Encoder 1: the end position.
unfoldable pub turn_end : SystemLimits → Bool → ℤ → Commands → Commands × List ClientMessage
turn_end limits holding_start delta (a, b) =
    let shift = moved limits.position (turn_amount delta) in
    let b' = record b { position = shift b.position } in
    let a' = record a { position = if holding_start then shift a.position else b'.position } in
    if holding_start || ltb_ℤ b'.position a.position
    then ((a', b'), position_update 1 b'.position ∷ position_update 0 a'.position ∷ [])
    else ((a, b'), position_update 1 b'.position ∷ [])

-- Encoder 2: the velocity of both.
unfoldable pub turn_speed : SystemLimits → ℤ → Commands → Commands × List ClientMessage
turn_speed limits delta (a, b) =
    let v = moved limits.velocity (turn_amount delta) a.velocity in
    (
      (record a { velocity = v }, record b { velocity = v }),
      velocity_update 0 v ∷ velocity_update 1 v ∷ [],
    )

-- Encoder 3: the acceleration and the deceleration of both.
unfoldable pub turn_acceleration : SystemLimits → ℤ → Commands → Commands × List ClientMessage
turn_acceleration limits delta (a, b) =
    let x = moved limits.acceleration (fine_amount delta) a.acceleration in
    let d = clamp x (pos 0) limits.deceleration in
    (
      (
        record a { acceleration = x; deceleration = d },
        record b { acceleration = x; deceleration = d },
      ),
      acceleration_update 0 x d ∷ acceleration_update 1 x d ∷ [],
    )

-- `match i`
unfoldable pub turn : SystemLimits → Bool → ℕ → ℤ → Commands → Commands × List ClientMessage
unfolding turn_start turn_end turn_speed turn_acceleration
turn limits holding_start zero delta c = turn_start limits holding_start delta c
turn limits holding_start (suc zero) delta c = turn_end limits holding_start delta c
turn limits holding_start (suc (suc zero)) delta c = turn_speed limits delta c
turn limits holding_start (suc (suc (suc zero))) delta c = turn_acceleration limits delta c
turn limits holding_start _ delta c = (c, [])

-- A delta of 0 is skipped.
unfoldable pub turn_if : SystemLimits → Bool → ℕ → ℤ → Commands → Commands × List ClientMessage
unfolding turn
turn_if limits holding_start i delta c =
    if delta ==ℤ pos 0 then (c, []) else turn limits holding_start i delta c

-- The loop over the encoders, from `i` on.
unfoldable pub turn_all :
    SystemLimits → Bool → ℕ → List ℤ → Commands → Commands × List ClientMessage
unfolding turn_if
turn_all limits holding_start i [] c = (c, [])
turn_all limits holding_start i (delta ∷ deltas) c =
    let (c', messages) = turn_if limits holding_start i delta c in
    let (c'', more) = turn_all limits holding_start (suc i) deltas c' in (c'', messages ++ more)
