-- ===== src/Tests/Hid.antt =====
-- A concrete screen and report.
use puddle.Base.{ℕ, ◌≡◌, refl, true, some, List, [], ◌∷◌, ◌++◌, arith}
use puddle.Base.Exec.{ok}
use puddle.Base.Int.{pos, negsuc}
use puddle.Hid.Messages.{
  ScreenSpec, text_lines, menu, no_animation, fade_in, button_click, menu_select,
}
use puddle.Hid.Screen.{
  encode, encode_labels, encode_area, encode_content, encode_lines, encode_items,
  send_screen_update,
}
use puddle.Hid.Screen.Whole.{IsWhole, send_screen_update-IsWhole}
use puddle.Hid.Messages.{animation_byte}
use puddle.Hid.Variables.{
  get_encoded_size, encode_entry, encode_hardware, send_variable_updates, send_entries, flush,
  update_report,
}
use puddle.Hid.Variables.Size.{HasSize, encode_entry-HasSize}
use puddle.Hid.Messages.{short_string, hardware_control, led_ring_value}
use puddle.Hid.Screen.{write}
use puddle.Base.{replicate}
use puddle.Base.{map}
use puddle.Hid.Messages.{VariableEntry}
use puddle.Base.{All, ◌<◌}
use puddle.Base.Exec.{err}
use puddle.Hid.Variables.{entry_too_large}
use puddle.Hid.Variables.TooLarge.{send_variable_updates-IsRefused}
use puddle.Hid.Variables.Whole.{IsSendable, encoded, IsSent, send_variable_updates-IsSent}
use puddle.Hid.Input.{read_input_report, read_events, from_raw}

abbrev screen : ScreenSpec
screen = record {
  screen_id = 7;
  encoder_labels = record { primary = 65 ∷ []; secondary = [] } ∷ [];
  left_main = text_lines 2 ((72 ∷ 105 ∷ []) ∷ []);
  left_animation_type = no_animation;
  left_animation_duration = 0;
  left_animation_delay = 0;
  right_main = menu 0 (77 ∷ []) (record { item_id = 5; enabled = true; label = 79 ∷ [] } ∷ []);
  right_animation_type = fade_in;
  right_animation_duration = 300;
  right_animation_delay = 0;
}

abbrev payload : List ℕ
payload =
    65 ∷ 0 ∷ 0 ∷ 0 ∷ 2 ∷ 1 ∷ 72 ∷ 105 ∷ 0 ∷ 0 ∷ 0 ∷ 0 ∷ 0 ∷ 0 ∷ 1 ∷ 0 ∷ 77 ∷ 0 ∷ 1 ∷ 5 ∷ 1 ∷ 79 ∷ 0
    ∷ 9 ∷ 44 ∷ 1 ∷ 0 ∷ 0 ∷ []

screen_encoded : encode screen ≡ ok payload
unfolding encode encode_labels encode_area encode_content encode_lines encode_items animation_byte
screen_encoded = refl

send_screen_update-IsWhole_example :
    (reports : List (List ℕ)) × ((send_screen_update (λ _ _. true) screen []
        ≡ (ok tt, [] ++ reports))
      × IsWhole 7 payload reports)
send_screen_update-IsWhole_example =
    send_screen_update-IsWhole screen payload [] screen_encoded (omega arith)

-- A click and a choice in a menu, between them an event that the program does not know.
read_input_report-test :
    read_input_report (1 ∷ 7 ∷ 255 ∷ 0 ∷ 3 ∷ 0 ∷ 3 ∷ 0 ∷ 2 ∷ 9 ∷ 9 ∷ 4 ∷ 69 ∷ []) 13
    ≡ ok (
        some (record {
          active_screen_id = 7;
          encoder_deltas = negsuc 0 ∷ pos 0 ∷ pos 3 ∷ pos 0 ∷ [];
          events = button_click 2 ∷ menu_select 1 5 ∷ [];
        }))
unfolding read_input_report read_events from_raw
read_input_report-test = refl

encode_entry-HasSize_example :
    HasSize
      (get_encoded_size (short_string 3 (72 ∷ 105 ∷ [])))
      (encode_entry (short_string 3 (72 ∷ 105 ∷ [])))
encode_entry-HasSize_example = encode_entry-HasSize (short_string 3 (72 ∷ 105 ∷ []))

-- Two entries go into one report.
send_variable_updates-test :
    send_variable_updates
      (λ _ _. true)
      (short_string 3 (72 ∷ 105 ∷ []) ∷ hardware_control (led_ring_value 2 9) ∷ [])
      []
    ≡ (ok tt, (0x02 ∷ 2 ∷ 35 ∷ 72 ∷ 105 ∷ 0 ∷ 98 ∷ 9 ∷ replicate 56 0) ∷ [])
unfolding send_variable_updates send_entries flush update_report encode_entry encode_hardware
    get_encoded_size write
send_variable_updates-test = refl

-- The labels of a button and a ring of lights.
abbrev entries : List VariableEntry
entries = short_string 3 (72 ∷ 105 ∷ []) ∷ hardware_control (led_ring_value 2 9) ∷ []

-- Warnings of 61 bytes.
abbrev long_warnings : VariableEntry
long_warnings = short_string 7 (replicate 61 65)

long : 62 < get_encoded_size long_warnings
unfolding get_encoded_size
long = omega arith

entries-IsSendable : All IsSendable entries
unfolding encode_entry encode_hardware get_encoded_size
entries-IsSendable = (
  record { encodes = refl; fits = omega arith },
  (record { encodes = refl; fits = omega arith }, tt),
)

send_variable_updates-IsSent_example :
    IsSent (map encoded entries) [] (send_variable_updates (λ _ _. true) entries [])
send_variable_updates-IsSent_example = send_variable_updates-IsSent entries [] entries-IsSendable

send_variable_updates-IsRefused_example :
    (send_variable_updates (λ _ _. true) (entries ++ (long_warnings ∷ [])) []).0
    ≡ err (entry_too_large (get_encoded_size long_warnings))
send_variable_updates-IsRefused_example =
    send_variable_updates-IsRefused long_warnings [] long entries [] entries-IsSendable
