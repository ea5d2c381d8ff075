-- ===== src/Core/Access.antt =====
-- src/main.rs: the answers of `handle_message` to requests for write access and for the state.
use puddle.Base.{ℕ, Bool, true, false, ◌||◌, Option, none, some, is_none, if◌then◌else◌}
use puddle.Base.Exec.{◌>>◌, pure}
use puddle.Messages.{
  DriveState, off, ControllerId, hid, AckFailureReason, not_writer, ack, write_access_changed,
  write_access_result, state,
}
use puddle.Core.Manager.{HidUi, Core, Act, is_holder, set_holder, update_core, send}

abbrev pub is_hid : ControllerId → Bool
is_hid hid = true
is_hid _ = false

abbrev pub is_off : DriveState → Bool
is_off off = true
is_off _ = false

unfoldable pub can_take_write_access : Core → ControllerId → Bool
can_take_write_access k id =
    is_off k.core_state.drive_state || (is_none k.core_state.write_access_holder || is_hid id)

module _ (ui : HidUi) where
  abbrev pub fail : ControllerId → ℕ → AckFailureReason → Act ui (Unit {0})
  fail id seq reason = send ui (some id) (ack seq false (some reason))

  abbrev pub succeed : ControllerId → ℕ → Act ui (Unit {0})
  succeed id seq = send ui (some id) (ack seq true none)

  -- `if self.core_state.write_access_holder == Some(controller_id)`, with the answer otherwise.
  abbrev pub for_holder : ControllerId → ℕ → Act ui (Unit {0}) → Act ui (Unit {0})
  for_holder id seq m s =
      if is_holder s.core.core_state.write_access_holder id then m s else fail id seq not_writer s

  -- A holder that does not change is not announced.
  unfoldable pub announce : ControllerId → Option ControllerId → Act ui (Unit {0})
  announce id previous =
      if is_holder previous id
      then pure tt
      else send ui none (write_access_changed (some id) previous)

  unfoldable pub request_write_access : ControllerId → ℕ → Act ui (Unit {0})
  unfolding announce
  request_write_access id seq s =
      let previous = s.core.core_state.write_access_holder in
      if can_take_write_access s.core id
      then (do
        update_core ui (set_holder (some id))
        announce id previous
        send ui (some id) (write_access_result seq true (some id)))
          s
      else send ui (some id) (write_access_result seq false previous) s

  unfoldable pub release_write_access : ControllerId → ℕ → Act ui (Unit {0})
  release_write_access id seq = for_holder id seq (do
    update_core ui (set_holder none)
    send ui none (write_access_changed none (some id))
    succeed id seq)

  unfoldable pub get_state : ControllerId → ℕ → Act ui (Unit {0})
  get_state id seq s = send ui (some id) (state (some seq) s.core.core_state) s
