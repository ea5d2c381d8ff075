-- ===== src/Hid/Variables/Size.antt =====
-- The size that is reserved for an entry is the size of its bytes.
use puddle.Base.{ℕ, ◌≡◌, refl, List, Bool-cases, inl, inr, leb, ltb, length, arith}
use puddle.Base.Exec.{Result, ok, err}
use puddle.Hid.Messages.{
  VariableEntry, fixed_point, short_string, hardware_control, HardwareControl, led_ring_value,
  reset, sleep_level,
}
use puddle.Hid.Variables.{VariableError, get_encoded_size, encode_entry, encode_hardware}

-- An entry that is encoded takes as many bytes as were counted.
abbrev pub HasSize : ℕ → Result VariableError (List ℕ) → Type 0
HasSize size (ok bytes) = length bytes ≡ size
HasSize size (err e) = Unit

encode_hardware-HasSize : (control : HardwareControl) → HasSize 2 (encode_hardware control)
unfolding encode_hardware
encode_hardware-HasSize (led_ring_value ring_id value) = elim (Bool-cases (leb 4 ring_id)) [
  | inl e ↦ rw e tt
  | inr e ↦ rw e refl
]
encode_hardware-HasSize reset = refl
encode_hardware-HasSize (sleep_level can_deep_sleep) = refl

-- The bytes of every entry that can be encoded are as many as were reserved for it.
pub encode_entry-HasSize :
    (entry : VariableEntry) → HasSize (get_encoded_size entry) (encode_entry entry)
unfolding encode_entry get_encoded_size
encode_entry-HasSize (fixed_point index decimals value) = elim (Bool-cases (ltb 31 index)) [
  | inl e ↦ rw e tt
  | inr e ↦ rw e refl
]
encode_entry-HasSize (short_string index value) = elim (Bool-cases (ltb 31 index)) [
  | inl e ↦ rw e tt
  | inr e ↦ rw e (omega arith)
]
encode_entry-HasSize (hardware_control control) = encode_hardware-HasSize control
