-- ===== src/Hid/Input.antt =====
-- src/hid.rs: `read_input_report`, `HidInputEvent::from_raw` and `read_device_info`. The device is
-- outside the program: a report is given as the buffer of 64 bytes that it fills and its length.
use puddle.Base.{
  ℕ, zero, suc, ◌+◌, ◌-◌, ◌*◌, ◌/◌, ◌%◌, ◌^◌, Option, none, some, List, [], ◌∷◌, not, ltb, ◌==◌,
  if◌then◌else◌, get_or,
}
use puddle.Base.Exec.{Result, ok, err}
use puddle.Base.Int.{signed}
use puddle.Hid.Messages.{
  HidInputEvent, button_click, button_double_click, button_hold_start, button_hold_end, menu_select,
  menu_cancel, InputReport, DeviceInfo,
}

unfoldable pub from_raw : ℕ → ℕ → Option HidInputEvent
from_raw event_type event_data =
    if event_type == 0x00
    then some (button_click event_data)
    else if event_type == 0x01
    then some (button_double_click event_data)
    else if event_type == 0x02
    then some (button_hold_start event_data)
    else if event_type == 0x03
    then some (button_hold_end event_data)
    else if event_type == 0x04
    then some (menu_select (event_data / 2 ^ 6) (event_data % 2 ^ 6))
    else if event_type == 0x05
    then some (menu_cancel (event_data / 2 ^ 6))
    else none

pub data InputError : Type 0 where
  too_short invalid_event_size : InputError

-- `report_buf[i]`
abbrev pub byte_at : List ℕ → ℕ → ℕ
byte_at buf i = get_or buf i 0

-- The events from `i` on; one of an unknown type is left out.
unfoldable pub read_events : List ℕ → ℕ → ℕ → List HidInputEvent
unfolding from_raw
read_events buf zero i = []
read_events buf (suc left) i =
    let rest = read_events buf left (i + 1) in
    let offset = 7 + i * 2 in
    elim (from_raw (byte_at buf offset) (byte_at buf (offset + 1))) [
      | some event ↦ event ∷ rest
      | none ↦ rest
    ]

unfoldable pub read_input_report : List ℕ → ℕ → Result InputError (Option InputReport)
unfolding read_events
read_input_report buf len =
    let event_count = byte_at buf 6 in
    if len == 0
    then ok none
    else if not (byte_at buf 0 == 0x01)
    then ok none
    else if ltb len 7
    then err too_short
    else if ltb (len - 7) (event_count * 2)
    then err invalid_event_size
    else ok (
        some (record {
          active_screen_id = byte_at buf 1;
          encoder_deltas =
              signed 8 (byte_at buf 2)
              ∷ signed 8 (byte_at buf 3)
              ∷ signed 8 (byte_at buf 4)
              ∷ signed 8 (byte_at buf 5)
              ∷ [];
          events = read_events buf event_count 0;
        }))

unfoldable pub read_device_info : List ℕ → ℕ → Result InputError DeviceInfo
read_device_info buf len =
    if ltb len 4
    then err too_short
    else ok (record {
      firmware_version_major = byte_at buf 1;
      firmware_version_minor = byte_at buf 2;
      features = byte_at buf 3;
    })
