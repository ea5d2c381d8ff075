-- ===== src/Hid/Variables.antt =====
-- src/hid.rs: `VariableEntry::encode` and `send_variable_updates`. The report under way is the bytes
-- behind its header; the rest of the buffer is zeros.
pub mod Size
pub mod Whole
pub mod TooLarge
use puddle.Base.{
  ℕ, ◌+◌, ◌-◌, ◌*◌, ◌%◌, Bool, true, false, ◌&&◌, List, [], ◌∷◌, ◌++◌, ltb, leb, if◌then◌else◌,
  length, replicate,
}
use puddle.Base.Exec.{Result, ok, err, Exec, pure, raise, ◌>>◌}
use puddle.Base.Bytes.{le16}
use puddle.Base.Int.{unsigned}
use puddle.Hid.Messages.{
  VariableEntry, fixed_point, short_string, hardware_control, HardwareControl, led_ring_value,
  reset, sleep_level,
}
use puddle.Hid.Screen.{Accepts, HidError, write, with_nul, hid_report_len}

pub data VariableError : Type 0 where
  -- index, ring_id, entry_size
  invalid_index invalid_ring entry_too_large : ℕ → VariableError
  send_failed : HidError → VariableError

unfoldable pub get_encoded_size : VariableEntry → ℕ
get_encoded_size (fixed_point index decimals value) = 4
get_encoded_size (short_string index value) = 1 + length (with_nul value)
get_encoded_size (hardware_control control) = 2

abbrev flag_byte : Bool → ℕ
flag_byte true = 1
flag_byte false = 0

-- The tag is above the five bits of the index.
abbrev hardware_bytes : ℕ → ℕ → List ℕ
hardware_bytes index value = (0b11 * 32 + index % 32) ∷ value ∷ []

unfoldable pub encode_hardware : HardwareControl → Result VariableError (List ℕ)
encode_hardware (led_ring_value ring_id value) =
    if leb 4 ring_id then err (invalid_ring ring_id) else ok (hardware_bytes ring_id value)
encode_hardware reset = ok (hardware_bytes 4 1)
encode_hardware (sleep_level can_deep_sleep) = ok (hardware_bytes 5 (flag_byte can_deep_sleep))

-- What is written into the buffer.
unfoldable pub encode_entry : VariableEntry → Result VariableError (List ℕ)
unfolding encode_hardware
encode_entry (fixed_point index decimals value) =
    if ltb 31 index
    then err (invalid_index index)
    else ok (index % 32 ∷ decimals ∷ le16 (unsigned 16 value))
encode_entry (short_string index value) =
    if ltb 31 index
    then err (invalid_index index)
    else ok ((0b01 * 32 + index % 32) ∷ with_nul value)
encode_entry (hardware_control control) = encode_hardware control

abbrev pub max_payload : ℕ
max_payload = hid_report_len - 2

-- `report_buf` when it is sent.
unfoldable pub update_report : List ℕ → ℕ → List ℕ
update_report body count = 0x02 ∷ count ∷ (body ++ replicate (max_payload - length body) 0)

abbrev pub Update : Type 0
Update = Exec (List (List ℕ)) VariableError (Unit {0})

unfoldable pub flush : Accepts → List ℕ → ℕ → Update
unfolding write update_report
flush accepts body count written =
    let (r, w) = write accepts (update_report body count) written in
    (elim r [ ok u ↦ ok u | err e ↦ err (send_failed e) ], w)

-- The loop over the entries: the bytes and the count of the report under way.
unfoldable pub send_entries : Accepts → List VariableEntry → List ℕ → ℕ → Update
unfolding flush encode_entry get_encoded_size
send_entries accepts [] body count = if ltb 0 count then flush accepts body count else pure tt
send_entries accepts (entry ∷ entries) body count =
    let entry_size = get_encoded_size entry in
    let appended =
      λ (bytes : List ℕ). send_entries accepts entries (body ++ bytes) ((count + 1) % 256) in
    let restarted = λ (bytes : List ℕ). send_entries accepts entries bytes 1 in
    if ltb max_payload entry_size
    then raise (entry_too_large entry_size)
    else if ltb hid_report_len (2 + length body + entry_size) && ltb 0 count
    then (flush accepts body count
        >> elim (encode_entry entry) [ ok bytes ↦ restarted bytes | err e ↦ raise e ])
    else elim (encode_entry entry) [ ok bytes ↦ appended bytes | err e ↦ raise e ]

unfoldable pub send_variable_updates : Accepts → List VariableEntry → Update
unfolding send_entries
send_variable_updates accepts variables = send_entries accepts variables [] 0
