-- ===== src/Drive/Clamp.antt =====
-- src/drive.rs: `clamp_deceleration`, the deceleration that is sent to the drive.
pub mod Stops
pub mod Room
pub mod Recovery
use puddle.Base.{
  ℕ, ◌+◌, ◌-◌, ◌*◌, ◌/◌, ◌%◌, ◌^◌, Bool, ◌&&◌, ◌||◌, not, Option, none, some, min, max, ltb, leb,
  ◌==◌, if◌then◌else◌,
}
use puddle.Base.Int.{ℤ, pos, ◌-ℤ◌, ◌*ℤ◌, ◌==ℤ◌, unsigned_abs, unsigned}
use puddle.Linmot.Units.{Position, Velocity, Acceleration}
use puddle.Drive.Words.{add64, sub64, mul64, i32_max, opposes}

-- Whether the drive is past the target in the approach direction.
abbrev pub past_target : Option ℤ → ℤ → ℤ → Bool
past_target none displacement v = opposes v displacement
past_target (some dir) displacement v =
    if not (dir ==ℤ pos 0) then opposes dir displacement else opposes v displacement

-- `(v * v) as u64`
unfoldable pub square : ℤ → ℕ
square v = unsigned 64 (v *ℤ v)

-- `d_req > 0 && v_sq <= 2 * d_req * budget`
abbrev pub suffices : ℕ → ℕ → ℕ → Bool
suffices v_sq d_req budget = ltb 0 d_req && leb v_sq (mul64 (mul64 2 d_req) budget)

-- The hard stop, scaled by how far past the margin the drive is.
unfoldable pub recovery : ℕ → ℕ → Acceleration → Acceleration → Acceleration
recovery distance_past margin hard_decel_min hard_decel_max =
    let excess = distance_past - margin in
    let t = min (mul64 excess 1000 / max margin 1) 1000 in
    let lo = unsigned 64 hard_decel_min in
    let hi = unsigned 64 hard_decel_max in
    let scaled = add64 lo (mul64 (sub64 hi lo) t / 1000) in pos (min scaled i32_max)

-- What is left to do once the stopping budget is known.
unfoldable pub raise_deceleration : Velocity → Acceleration → ℕ → Acceleration
unfolding square
raise_deceleration v requested budget =
    if v ==ℤ pos 0 || budget == 0
    then requested
    else if suffices (square v) (unsigned 64 requested) budget
    then requested
    else let twice = mul64 2 budget in pos (min (sub64 (add64 (square v) twice) 1 / twice) i32_max)

-- The budget where the drive is not past the target: with the margin only if the request then
-- suffices.
unfoldable pub approach_budget : Velocity → Acceleration → ℕ → ℕ → ℕ
unfolding square
approach_budget v requested base margin =
    let with_margin = add64 base margin in
    if suffices (square v) (unsigned 64 requested) with_margin then with_margin else base

unfoldable pub clamp_deceleration :
    Position
    → Velocity
    → Position
    → Acceleration
    → Option ℤ
    → Position
    → Acceleration
    → Acceleration
    → Acceleration
clamp_deceleration position v target requested direction overshoot_margin hard_min hard_max =
    let displacement = target -ℤ position in
    let margin = unsigned_abs overshoot_margin in
    let distance = unsigned_abs displacement in
    if past_target direction displacement v
    then (if leb margin distance
        then recovery distance margin hard_min hard_max
        else raise_deceleration v requested (margin - distance))
    else raise_deceleration v requested (approach_budget v requested distance margin)
