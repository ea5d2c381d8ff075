-- ===== src/Core/Event/Reply.antt =====
-- Every message of a WebSocket client has one answer.
pub mod Handlers
use Prim.Native.String.{String}
use puddle.Base.{
  ℕ, ◌≡◌, refl, Bool, true, false, Option, none, some, List, [], ◌∷◌, ◌++◌, All, inl, inr,
  Bool-cases, Option-cases, length, ltb, set, if◌then◌else◌,
}
use puddle.Base.Exec.{Result, ok, ◌>>◌}
use puddle.Messages.{
  web_socket, MotionCommand, MotionAction, CommandUpdate, CommandSetId, apply_fields, ClientMessage,
  request_write_access, release_write_access, get_state, get_command_set, upsert_command_set,
  update_command, delete_command_set, list_saved_sets, set_drive_power, set_motion_state,
  acknowledge_error, CoreMessage, ack, write_access_result, command_set, command_result,
  saved_set_list, state, command_set_changed, write_access_changed, not_writer, invalid_state,
  not_found, out_of_range,
}
use puddle.Core.Manager.{
  HidUi, Core, CoreManager, CoreError, CommandSet, find_set, remove_set, set_holder, is_holder,
  send, send_hid, send_web_socket,
}
use puddle.Core.Access.{can_take_write_access, announce, for_holder}
use puddle.Core.Access
use puddle.Core.Sets
use puddle.Core.Power
use puddle.Core.Event.{handle_message}
use puddle.Drive.Connection.{command_at}

-- The number of a request.
abbrev pub request_seq : ClientMessage → ℕ
request_seq (request_write_access seq) = seq
request_seq (release_write_access seq) = seq
request_seq (get_state seq) = seq
request_seq (get_command_set seq _) = seq
request_seq (upsert_command_set seq _ _ _) = seq
request_seq (update_command seq _) = seq
request_seq (delete_command_set seq _ _) = seq
request_seq (list_saved_sets seq) = seq
request_seq (set_drive_power seq _) = seq
request_seq (set_motion_state seq _) = seq
request_seq (acknowledge_error seq) = seq

-- The number that an answer has; a broadcast has none.
abbrev pub reply_seq : CoreMessage → Option ℕ
reply_seq (ack seq _ _) = some seq
reply_seq (write_access_result seq _ _) = some seq
reply_seq (command_set seq _ _ _) = some seq
reply_seq (command_result seq _ _) = some seq
reply_seq (saved_set_list seq _) = some seq
reply_seq (state seq _) = seq
reply_seq _ = none

abbrev pub Outbox : Type 0
Outbox = List (Option ℕ × CoreMessage)

-- A program with WebSocket clients only.
abbrev pub serving : (ui : HidUi) → Core → Outbox → CoreManager ui
serving ui k outbox = record {
  core = k;
  hid_ui = none;
  websocket_server = some (record { outbox = outbox; is_open = true });
}

-- For everyone, and with no number.
abbrev pub IsBroadcast : Option ℕ × CoreMessage → Type 0
IsBroadcast (token, m) = (token ≡ none) × (reply_seq m ≡ none)

module _ (ui : HidUi) where
  -- After broadcasts, one answer with its number to the client of the token is sent, the last.
  pub record IsAnswered (token seq : ℕ) (before : Outbox)
      (after : Result (CoreError ui) (Unit {0}) × CoreManager ui) : Type 0 where
    pub core : Core
    pub answer : CoreMessage
    pub broadcasts : Outbox
    pub sent : after ≡ (ok tt, serving ui core ((some token, answer) ∷ (broadcasts ++ before)))
    pub numbered : reply_seq answer ≡ some seq
    pub are_broadcasts : All IsBroadcast broadcasts
