-- ===== src/Linmot/Mci/Decode.antt =====
-- linmot/src/mci.rs: the error codes and the state word of the drive.
use puddle.Base.{ℕ, ◌/◌, ◌%◌, Bool, ◌==◌, if◌then◌else◌}
use puddle.Linmot.Bitflags.{test_bit}

pub data ErrorCode : Type 0 where
  no_error logic_supply_too_low logic_supply_too_high : ErrorCode
  motor_supply_too_low motor_supply_too_high : ErrorCode
  min_position_undershot max_position_overshot position_lag_always_too_big : ErrorCode
  motor_hot_sensor motor_slider_missing motor_short_time_overload : ErrorCode
  motor_communication_lost not_homed unknown_motion_command : ErrorCode
  pvt_buffer_overflow pvt_buffer_underflow : ErrorCode
  pvt_controller_too_fast pvt_controller_too_slow motion_command_in_wrong_state : ErrorCode
  less_calc_time_c0 less_calc_time_c1 less_calc_time_c2 less_calc_time_c3 : ErrorCode
  unknown : ℕ → ErrorCode

-- `From<u16>`; `From<u8>` goes through it.
unfoldable pub error_code_from : ℕ → ErrorCode
error_code_from e =
    if e == 0x00
    then no_error
    else if e == 0x01
    then logic_supply_too_low
    else if e == 0x02
    then logic_supply_too_high
    else if e == 0x03
    then motor_supply_too_low
    else if e == 0x04
    then motor_supply_too_high
    else if e == 0x07
    then min_position_undershot
    else if e == 0x08
    then max_position_overshot
    else if e == 0x0B
    then position_lag_always_too_big
    else if e == 0x20
    then motor_hot_sensor
    else if e == 0x22
    then motor_slider_missing
    else if e == 0x23
    then motor_short_time_overload
    else if e == 0x45
    then motor_communication_lost
    else if e == 0x80
    then not_homed
    else if e == 0x81
    then unknown_motion_command
    else if e == 0x82
    then pvt_buffer_overflow
    else if e == 0x83
    then pvt_buffer_underflow
    else if e == 0x84
    then pvt_controller_too_fast
    else if e == 0x85
    then pvt_controller_too_slow
    else if e == 0x86
    then motion_command_in_wrong_state
    else if e == 0x90
    then less_calc_time_c0
    else if e == 0x91
    then less_calc_time_c1
    else if e == 0x92
    then less_calc_time_c2
    else if e == 0x93
    then less_calc_time_c3
    else unknown e

pub data State : Type 0 where
  not_ready_to_switch_on switch_on_disabled ready_to_switch_on : State
  setup_error error : ErrorCode → State
  hardware_tests ready_to_operate : State
  -- motion_command_count, event_handler, motion_active, in_target_position, homed
  operation_enabled : ℕ → Bool → Bool → Bool → Bool → State
  homing clearance_check going_to_initial_position : Bool → State
  aborting freezing quick_stop : State
  going_to_position jogging_positive jogging_negative : Bool → State
  linearizing phase_search special_mode brake_delay : State
  -- main_state, sub_state
  unknown : ℕ → ℕ → State

-- `val & 0xFF` and `val >> 8` of a u16.
unfoldable pub state_from : ℕ → State
state_from val =
    let sub_state = val % 256 in
    let main_state = val / 256 in
    if main_state == 0
    then not_ready_to_switch_on
    else if main_state == 1
    then switch_on_disabled
    else if main_state == 2
    then ready_to_switch_on
    else if main_state == 3
    then setup_error (error_code_from sub_state)
    else if main_state == 4
    then error (error_code_from sub_state)
    else if main_state == 5
    then hardware_tests
    else if main_state == 6
    then ready_to_operate
    else if main_state == 8
    then operation_enabled (sub_state % 16) (test_bit sub_state 4) (test_bit sub_state 5)
        (test_bit sub_state 6) (test_bit sub_state 7)
    else if main_state == 9
    then homing (sub_state == 0xF)
    else if main_state == 10
    then clearance_check (sub_state == 0xF)
    else if main_state == 11
    then going_to_initial_position (sub_state == 0xF)
    else if main_state == 12
    then aborting
    else if main_state == 13
    then freezing
    else if main_state == 14
    then quick_stop
    else if main_state == 15
    then going_to_position (sub_state == 0xF)
    else if main_state == 16
    then jogging_positive (sub_state == 0xF)
    else if main_state == 17
    then jogging_negative (sub_state == 0xF)
    else if main_state == 18
    then linearizing
    else if main_state == 19
    then phase_search
    else if main_state == 20
    then special_mode
    else if main_state == 21
    then brake_delay
    else State.unknown main_state sub_state
