-- ===== src/Hid/Messages.antt =====
-- src/hid/messages.rs: what the handheld controller and the program exchange. A C string is the list
-- of its bytes, which the terminating 0 is not among.
use puddle.Base.{ℕ, Bool, List}
use puddle.Base.Int.{ℤ}

pub data HidInputEvent : Type 0 where
  -- encoder_id
  button_click button_double_click button_hold_start button_hold_end : ℕ → HidInputEvent
  -- display_id, item_id
  menu_select : ℕ → ℕ → HidInputEvent
  menu_cancel : ℕ → HidInputEvent

-- The four encoders' deltas are a list here.
pub record InputReport : Type 0 where
  pub active_screen_id : ℕ
  pub encoder_deltas : List ℤ
  pub events : List HidInputEvent

pub record DeviceInfo : Type 0 where
  pub firmware_version_major : ℕ
  pub firmware_version_minor : ℕ
  pub features : ℕ

abbrev pub CString : Type 0
CString = List ℕ

pub record MenuItem : Type 0 where
  pub item_id : ℕ
  pub enabled : Bool
  pub label : CString

pub data DisplayContent : Type 0 where
  -- top_margin, lines
  text_lines : ℕ → List CString → DisplayContent
  -- top_margin, title, items
  menu : ℕ → CString → List MenuItem → DisplayContent

pub record EncoderLabel : Type 0 where
  pub primary : CString
  pub secondary : CString

pub data ScreenAnimation : Type 0 where
  no_animation over_left over_right over_top over_bottom : ScreenAnimation
  move_left move_right move_top move_bottom fade_in fade_out : ScreenAnimation
  out_left out_right out_top out_bottom : ScreenAnimation

-- `From<ScreenAnimation> for u8`
unfoldable pub animation_byte : ScreenAnimation → ℕ
animation_byte no_animation = 0
animation_byte over_left = 1
animation_byte over_right = 2
animation_byte over_top = 3
animation_byte over_bottom = 4
animation_byte move_left = 5
animation_byte move_right = 6
animation_byte move_top = 7
animation_byte move_bottom = 8
animation_byte fade_in = 9
animation_byte fade_out = 10
animation_byte out_left = 11
animation_byte out_right = 12
animation_byte out_top = 13
animation_byte out_bottom = 14

pub record ScreenSpec : Type 0 where
  pub screen_id : ℕ
  pub encoder_labels : List EncoderLabel
  pub left_main : DisplayContent
  pub left_animation_type : ScreenAnimation
  pub left_animation_duration : ℕ
  pub left_animation_delay : ℕ
  pub right_main : DisplayContent
  pub right_animation_type : ScreenAnimation
  pub right_animation_duration : ℕ
  pub right_animation_delay : ℕ

pub data HardwareControl : Type 0 where
  -- ring_id, value
  led_ring_value : ℕ → ℕ → HardwareControl
  reset : HardwareControl
  -- can_deep_sleep
  sleep_level : Bool → HardwareControl

pub data VariableEntry : Type 0 where
  -- index, decimals, value
  fixed_point : ℕ → ℕ → ℤ → VariableEntry
  -- index, value
  short_string : ℕ → CString → VariableEntry
  hardware_control : HardwareControl → VariableEntry

pub data OutputReport : Type 0 where
  screen_spec : ScreenSpec → OutputReport
  variable_update : List VariableEntry → OutputReport
