-- ===== src/Drive/Arrival.antt =====
-- src/drive.rs, in `compute_next_request`: whether the active waypoint is reached.
use puddle.Base.{
  ℕ, ◌*◌, ◌-◌, ◌^◌, Bool, true, false, not, ◌&&◌, ◌||◌, Option, none, some, min, leb, ◌==◌,
  if◌then◌else◌,
}
use puddle.Base.Int.{ℤ, pos, ◌-ℤ◌, ◌==ℤ◌, ltb_ℤ, leb_ℤ, unsigned_abs, unsigned}
use puddle.Linmot.Units.{Position, Velocity, Acceleration}
use puddle.Drive.Words.{add64, opposes, agrees}
use puddle.Drive.Predict.{predict_position, predict_velocity}
use puddle.Drive.Clamp.{square}
use puddle.Drive.Connection.{Connection}

-- Moving toward the target: in the approach direction if that is known, else towards the target.
abbrev pub moving_toward : Option ℤ → ℤ → Velocity → Bool
moving_toward none displacement v = agrees displacement v
moving_toward (some dir) displacement v =
    if not (dir ==ℤ pos 0) then agrees dir v else agrees displacement v

-- `u64::saturating_mul`
abbrev pub saturating_mul64 : ℕ → ℕ → ℕ
saturating_mul64 a b = min (a * b) (2 ^ 64 - 1)

-- `can_recover_with_hard_decel`
unfoldable pub can_recover : Position → Acceleration → ℕ → Velocity → Bool
unfolding square
can_recover overshoot_margin hard_max dist v =
    let stopping_budget = add64 dist (unsigned_abs overshoot_margin) in
    let d_max = unsigned 64 hard_max in
    if stopping_budget == 0
    then true
    else if d_max == 0
    then false
    else leb (square v) (saturating_mul64 (saturating_mul64 2 d_max) stopping_budget)

-- `displacement > 0 && distance_after <= 0 || displacement < 0 && distance_after >= 0`
abbrev pub crosses : ℤ → ℤ → Bool
crosses before after =
    (ltb_ℤ (pos 0) before && leb_ℤ after (pos 0)) || (ltb_ℤ before (pos 0) && leb_ℤ (pos 0) after)

unfoldable pub predicted_crossing :
    Connection → Position → Position → Velocity → Acceleration → Bool → Bool → Bool
unfolding can_recover
predicted_crossing c target position v a toward has_approached =
    let displacement = target -ℤ position in
    let handoff_horizon = c.interval * 3 in
    let next_position = predict_position position v a handoff_horizon in
    let distance_after = target -ℤ next_position in
    let next_v = predict_velocity v a handoff_horizon in
    let decelerating_toward = toward && opposes v a in
    let will_stop_or_reverse = decelerating_toward && crosses v next_v in
    (crosses displacement distance_after
      && can_recover c.overshoot_margin c.hard_deceleration_max (unsigned_abs displacement) v)
    || (has_approached && will_stop_or_reverse)

-- The block that computes `target_reached`: the new `active_command_has_approached`, and the answer.
unfoldable pub target_reached :
    Connection → Position → Position → Velocity → Acceleration → Bool × Bool
target_reached c target position v a =
    let displacement = target -ℤ position in
    let toward = moving_toward c.active_approach_direction displacement v in
    let has_approached = if toward then true else c.active_command_has_approached in
    (
      has_approached,
      if unsigned_abs displacement == 0
          then true
          else if has_approached && (v ==ℤ pos 0 || not toward)
          then true
          else predicted_crossing c target position v a toward has_approached,
    )
