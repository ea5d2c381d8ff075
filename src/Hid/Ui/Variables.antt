-- ===== src/Hid/Ui/Variables.antt =====
-- src/hid/ui_manager.rs: the variables of the screen, and which of them are sent.
pub mod Same
pub mod View
use Prim.Native.Char.{code}
use Prim.Native.String.{String}
use puddle.Base.{
  ℕ, ◌+◌, ◌%◌, ◌^◌, ◌==◌, Bool, true, false, not, ◌&&◌, ◌||◌, Option, none, some, List, [], ◌∷◌,
  ◌++◌, if◌then◌else◌,
}
use puddle.Base.Int.{ℤ, pos, ◌==ℤ◌, leb_ℤ, clamp, quot, wrap}
use puddle.Messages.{
  DriveState, disconnected, off, preparing, paused, moving, errored, MotionCommand, SystemLimits,
  CoreState,
}
use puddle.Hid.Messages.{
  CString, VariableEntry, fixed_point, short_string, hardware_control, HardwareControl,
  led_ring_value, reset, sleep_level,
}

-- The bytes of a text, all of whose characters are ASCII here.
abbrev pub bytes : String → CString
bytes String.[] = []
bytes (String.◌∷◌ c s) = code c ∷ bytes s

abbrev same_bytes : CString → CString → Bool
same_bytes [] [] = true
same_bytes (x ∷ xs) (y ∷ ys) = x == y && same_bytes xs ys
same_bytes _ _ = false

abbrev same_flag : Bool → Bool → Bool
same_flag true b = b
same_flag false b = not b

abbrev pub same_control : HardwareControl → HardwareControl → Bool
same_control (led_ring_value r v) (led_ring_value s w) = r == s && v == w
same_control reset reset = true
same_control (sleep_level a) (sleep_level b) = same_flag a b
same_control _ _ = false

-- `prev == v`, the derived equality.
unfoldable pub same_variable : VariableEntry → VariableEntry → Bool
same_variable (fixed_point i d v) (fixed_point j e w) = i == j && (d == e && v ==ℤ w)
same_variable (short_string i s) (short_string j t) = i == j && same_bytes s t
same_variable (hardware_control a) (hardware_control b) = same_control a b
same_variable _ _ = false

abbrev control_key : HardwareControl → ℕ
control_key (led_ring_value ring_id value) = ring_id
control_key reset = 5
control_key (sleep_level can_deep_sleep) = 6

-- Of a u8. A ring is below 128, so that the high bit is added.
unfoldable pub get_variable_key : VariableEntry → ℕ
get_variable_key (fixed_point index decimals value) = index
get_variable_key (short_string index value) = index
get_variable_key (hardware_control control) = 128 + control_key control % 128

-- `HashMap<u8, VariableEntry>`
abbrev pub Sent : Type 0
Sent = List (ℕ × VariableEntry)

unfoldable pub find_sent : ℕ → Sent → Option VariableEntry
find_sent key [] = none
find_sent key ((k, v) ∷ sent) = if k == key then some v else find_sent key sent

unfoldable pub put_sent : ℕ → VariableEntry → Sent → Sent
put_sent key new [] = (key, new) ∷ []
put_sent key new ((k, v) ∷ sent) =
    let rest = put_sent key new sent in if k == key then (k, new) ∷ sent else (k, v) ∷ rest

-- Whether the variable is what was sent last under its key.
unfoldable pub is_sent : VariableEntry → Option VariableEntry → Bool
unfolding same_variable
is_sent v none = false
is_sent v (some prev) = same_variable prev v

-- `variables.retain(…)`
unfoldable pub retain : List VariableEntry → Sent → List VariableEntry × Sent
unfolding is_sent
retain [] sent = ([], sent)
retain (v ∷ variables) sent =
    let key = get_variable_key v in
    let dropped = retain variables sent in
    let kept = retain variables (put_sent key v sent) in
    if is_sent v (find_sent key sent) then dropped else (v ∷ kept.0, kept.1)

-- `((value.max(0).min(limit) as f64 / limit as f64) * 255.0).round().clamp(0.0, 255.0) as u8`, which
-- is computed in floating point.
abbrev pub Scale : Type 0
Scale = ℤ → ℤ → ℕ

abbrev pub scale_to_u8 : Scale → ℤ → ℤ → ℕ
scale_to_u8 scale value limit = if leb_ℤ limit (pos 0) then 0 else scale value limit

abbrev pub state_name : DriveState → String
state_name disconnected = "Disconnected"
state_name off = "Off"
state_name preparing = "Preparing"
state_name paused = "Paused"
state_name moving = "Moving"
state_name errored = "Errored"

abbrev can_sleep : DriveState → Bool
can_sleep disconnected = true
can_sleep off = true
can_sleep _ = false

abbrev state_text : Option String → DriveState → CString
state_text (some error_code) state = bytes "Error: " ++ bytes error_code
state_text none state = bytes (state_name state)

-- `warnings.join(", ")`
abbrev pub join : List String → CString
join [] = []
join (w ∷ []) = bytes w
join (w ∷ warnings) = bytes w ++ (bytes ", " ++ join warnings)

abbrev power_label : DriveState → String
power_label off = "Enable"
power_label preparing = "Disable"
power_label paused = "Disable"
power_label moving = "Disable"
power_label errored = "Ack."
power_label _ = ""

abbrev motion_label : DriveState → String
motion_label paused = "Resume"
motion_label moving = "Pause"
motion_label _ = ""

abbrev ring : ℕ → ℕ → VariableEntry
ring ring_id value = hardware_control (led_ring_value ring_id value)

-- `(value / divisor) as i16` with decimals.
abbrev number : ℕ → ℕ → ℤ → ℕ → VariableEntry
number index decimals value divisor = fixed_point index decimals (wrap 16 (quot value divisor))

abbrev pub draw_or_warnings : CoreState → List String → VariableEntry
draw_or_warnings core [] = number 7 2 core.current_draw 10
draw_or_warnings core (w ∷ warnings) = short_string 7 (join (w ∷ warnings))

-- What the controller shows of the core and of the commands.
unfoldable pub screen_variables :
    Scale → SystemLimits → CoreState → MotionCommand × MotionCommand → Bool → List VariableEntry
screen_variables scale limits core (a, b) holding_start =
    hardware_control (sleep_level (can_sleep core.drive_state))
    ∷ ring 0 (scale_to_u8 scale a.position limits.position)
    ∷ ring 1 (scale_to_u8 scale b.position limits.position)
    ∷ ring 2 (scale_to_u8 scale a.velocity limits.velocity)
    ∷ ring 3 (scale_to_u8 scale a.acceleration limits.acceleration)
    ∷ number 0 0 a.position 10000
    ∷ number 1 0 b.position 10000
    ∷ number 2 2 a.velocity 10000
    ∷ number 3 2 a.acceleration 1000
    ∷ short_string 4 (state_text core.error_code core.drive_state)
    ∷ number 5 2 core.actual_position 100
    ∷ number 6 2 core.demand_position 100
    ∷ draw_or_warnings core core.warnings
    ∷ short_string 8 (bytes (power_label core.drive_state))
    ∷ short_string 9 (bytes (motion_label core.drive_state))
    ∷ short_string 10 (bytes (if holding_start then "" else "Start"))
    ∷ short_string 11 (bytes (if holding_start then "Stroke" else "End"))
    ∷ []
