-- ===== src/Linmot/Units.antt =====
-- linmot/src/mci/units.rs: the units are newtypes over i32 and i16, modelled by the integer that they
-- hold. The arithmetic of a release build wraps. The conversions from f64 and the `Debug` output are
-- not modelled.
use puddle.Base.Int.{ℤ}

-- i32, in units of 0.1 μm.
abbrev pub Position : Type 0
Position = ℤ

-- i32, in units of 1e-6 m/s.
abbrev pub Velocity : Type 0
Velocity = ℤ

-- i32, in units of 1e-5 m/s².
abbrev pub Acceleration : Type 0
Acceleration = ℤ

-- i32, in units of 1e-4 m/s³.
abbrev pub Jerk : Type 0
Jerk = ℤ

-- i16, in units of 1 mA.
abbrev pub Current : Type 0
Current = ℤ

-- i16, in units of 0.1 °C.
abbrev pub DriveTemperature : Type 0
DriveTemperature = ℤ

-- i16, in units of 50/51 °C from -50 °C.
abbrev pub MotorTemperature : Type 0
MotorTemperature = ℤ
