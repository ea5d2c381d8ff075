-- ===== src/Drive/Predict.antt =====
-- src/drive.rs: the extrapolation of position and velocity, in i64, cut to i32. A duration is a
-- number of microseconds. `/` rounds towards zero.
use puddle.Base.{ℕ}
use puddle.Base.Int.{pos, ◌+ℤ◌, ◌*ℤ◌, quot, wrap}
use puddle.Linmot.Units.{Position, Velocity, Acceleration}

unfoldable pub predict_position : Position → Velocity → Acceleration → ℕ → Position
predict_position position velocity acceleration t_us =
    let t = wrap 64 (pos t_us) in
    let vt = quot (wrap 64 (wrap 64 (velocity *ℤ t) *ℤ pos 10)) 1_000_000 in
    let at2 =
      quot (wrap 64 (wrap 64 (wrap 64 (acceleration *ℤ t) *ℤ t) *ℤ pos 50)) 1_000_000_000_000 in
    wrap 32 (wrap 64 (wrap 64 (position +ℤ vt) +ℤ at2))

unfoldable pub predict_velocity : Velocity → Acceleration → ℕ → Velocity
predict_velocity velocity acceleration t_us =
    let t = wrap 64 (pos t_us) in
    wrap 32 (wrap 64 (velocity +ℤ quot (wrap 64 (acceleration *ℤ t)) 100_000))
