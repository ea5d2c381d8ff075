-- ===== src/Core/Event/Reply/Handlers.antt =====
-- Each handler answers the WebSocket client whose message it handles.
use Prim.Native.String.{String}
use puddle.Base.{
  ℕ, ◌≡◌, refl, Bool, true, false, Option, none, some, List, [], ◌∷◌, inl, inr, Bool-cases,
  Option-cases, length, ltb, set, if◌then◌else◌,
}
use puddle.Base.Exec.{Result, ok, ◌>>◌}
use puddle.Messages.{
  web_socket, MotionCommand, MotionAction, CommandUpdate, CommandSetId, apply_fields, ClientMessage,
  request_write_access, release_write_access, get_state, get_command_set, upsert_command_set,
  update_command, delete_command_set, list_saved_sets, set_drive_power, set_motion_state,
  acknowledge_error, CoreMessage, ack, write_access_result, command_set, command_result, state,
  command_set_changed, write_access_changed, not_writer, invalid_state, not_found, out_of_range,
}
use puddle.Core.Manager.{
  HidUi, Core, CoreManager, CoreError, CommandSet, find_set, remove_set, set_holder, is_holder,
  send, send_hid, send_web_socket,
}
use puddle.Core.Access.{can_take_write_access, announce, for_holder}
use puddle.Core.Access
use puddle.Core.Sets
use puddle.Core.Power
use puddle.Core.Event.{handle_message}
use puddle.Drive.Connection.{command_at}
use puddle.Core.Event.Sync.Limits.{IsSound}
use puddle.Core.Event.Reply.{IsAnswered, Outbox, serving, reply_seq, request_seq}

module _ (ui : HidUi) where
  answered :
      {token seq : ℕ} {before : Outbox} (k : Core) (answer : CoreMessage)
      → reply_seq answer ≡ some seq
      → IsAnswered ui token seq before (ok tt, serving ui k ((some token, answer) ∷ before))
  answered k answer e = record {
    core = k;
    answer = answer;
    broadcasts = [];
    sent = refl;
    numbered = e;
    are_broadcasts = tt;
  }

  told :
      {token seq : ℕ} {before : Outbox} (k : Core) (broadcast answer : CoreMessage)
      → reply_seq broadcast ≡ none
      → reply_seq answer ≡ some seq
      → IsAnswered ui token seq before
          (ok tt, serving ui k ((some token, answer) ∷ (none, broadcast) ∷ before))
  told k broadcast answer b e = record {
    core = k;
    answer = answer;
    broadcasts = (none, broadcast) ∷ [];
    sent = refl;
    numbered = e;
    are_broadcasts = ((refl, b), tt);
  }

  -- Whichever way a test goes.
  either :
      {t seq : ℕ} {o : Outbox} (b : Bool) {x y : Result (CoreError ui) (Unit {0}) × CoreManager ui}
      → IsAnswered ui t seq o x
      → IsAnswered ui t seq o y
      → IsAnswered ui t seq o (if b then x else y)
  either true hx hy = hx
  either false hx hy = hy

  -- An answer to the holder, and what another controller gets.
  refused :
      (t seq : ℕ) (k : Core) (o : Outbox)
      → IsAnswered ui t seq o (Access.fail ui (web_socket t) seq not_writer (serving ui k o))
  unfolding send send_web_socket
  refused t seq k o = answered k _ refl

  power-IsAnswered :
      (t seq : ℕ) (enabled : Bool) (k : Core) (o : Outbox)
      → IsAnswered ui t seq o (Power.set_drive_power ui (web_socket t) seq enabled (serving ui k o))
  unfolding Power.set_drive_power send send_web_socket
  power-IsAnswered t seq enabled k o =
      either (is_holder k.core_state.write_access_holder (web_socket t))
        (answered (Power.power enabled k) (ack seq true none) refl) (refused t seq k o)

  motion-IsAnswered :
      (t seq : ℕ) (action : MotionAction) (k : Core) (o : Outbox)
      → IsAnswered ui t seq o (Power.set_motion_state ui (web_socket t) seq action (serving ui k o))
  unfolding Power.set_motion_state send send_web_socket
  motion-IsAnswered t seq action k o =
      either (is_holder k.core_state.write_access_holder (web_socket t))
        (either (Power.is_valid_action action k.core_state.drive_state)
          (answered (Power.move action k) (ack seq true none) refl)
          (answered k (ack seq false (some invalid_state)) refl))
        (refused t seq k o)

  acknowledge-IsAnswered :
      (t seq : ℕ) (k : Core) (o : Outbox)
      → IsAnswered ui t seq o (Power.acknowledge_error ui (web_socket t) seq (serving ui k o))
  unfolding Power.acknowledge_error send send_web_socket
  acknowledge-IsAnswered t seq k o =
      either (is_holder k.core_state.write_access_holder (web_socket t))
        (either (Power.is_errored k.core_state.drive_state)
          (answered (Power.add_action 2 k) (ack seq true none) refl)
          (answered k (ack seq false (some invalid_state)) refl))
        (refused t seq k o)

  replace-IsAnswered :
      (t seq : ℕ) (base : Option ℕ) (commands : List MotionCommand) (k : Core) (o : Outbox)
      → IsAnswered ui t seq o
          (Sets.replace_active ui (web_socket t) seq base commands (serving ui k o))
  unfolding Sets.replace_active send send_hid send_web_socket
  replace-IsAnswered t seq base commands k o =
      let l = Power.add_action 1 (Sets.activate commands k) in
      either (is_holder k.core_state.write_access_holder (web_socket t))
        (either (Sets.is_current base k.active_command_set.0)
          (told l (command_set_changed l.active_command_set.0 none)
            (command_result seq true l.active_command_set.0) refl refl)
          (answered k (command_result seq false k.active_command_set.0) refl))
        (refused t seq k o)

  release-IsAnswered :
      (t seq : ℕ) (k : Core) (o : Outbox)
      → IsAnswered ui t seq o (Access.release_write_access ui (web_socket t) seq (serving ui k o))
  unfolding Access.release_write_access send send_hid send_web_socket
  release-IsAnswered t seq k o =
      either (is_holder k.core_state.write_access_holder (web_socket t))
        (told (set_holder none k) (write_access_changed none (some (web_socket t)))
          (ack seq true none) refl refl)
        (refused t seq k o)

  request-IsAnswered :
      (t seq : ℕ) (k : Core) (o : Outbox)
      → IsAnswered ui t seq o (Access.request_write_access ui (web_socket t) seq (serving ui k o))
  unfolding Access.request_write_access announce send send_hid send_web_socket
  request-IsAnswered t seq k o =
      let id = web_socket t in
      let previous = k.core_state.write_access_holder in
      let granted = write_access_result seq true (some id) in
      either (can_take_write_access k id)
        (elim (Bool-cases (is_holder previous id)) [
          | inl e ↦ rw e (answered (set_holder (some id) k) granted refl)
          | inr e ↦ rw e (
              told (set_holder (some id) k) (write_access_changed (some id) previous) granted refl
                refl)
        ])
        (answered k (write_access_result seq false previous) refl)

  get-IsAnswered :
      (t seq : ℕ) (name : CommandSetId) (k : Core) (o : Outbox)
      → IsAnswered ui t seq o (Sets.get_command_set ui (web_socket t) seq name (serving ui k o))
  unfolding Sets.get_command_set send send_web_socket
  get-IsAnswered t seq none k o =
      answered k (command_set seq none k.active_command_set.0 k.active_command_set.1) refl
  get-IsAnswered t seq (some name) k o = elim (Option-cases (find_set name k.saved_command_sets)) [
    | inl e ↦ rw (e, Sets.get_command_set) (answered k (ack seq false (some not_found)) refl)
    | inr ((version, commands), e) ↦
        rw (e, Sets.get_command_set)
          (answered k (command_set seq (some name) version commands) refl)
  ]

  upsert_saved-IsAnswered :
      (t seq : ℕ) (name : String) (base : Option ℕ) (commands : List MotionCommand)
      (found : Option CommandSet) (k : Core) (o : Outbox)
      → IsAnswered ui t seq o
          (Sets.upsert_saved ui (web_socket t) seq name base commands found (serving ui k o))
  unfolding Sets.upsert_saved send send_web_socket
  upsert_saved-IsAnswered t seq name base commands (some (version, _)) k o =
      let next = Sets.next_version version in
      elim (Bool-cases (Sets.is_current base version)) [
        | inl e ↦
            rw e (
              answered (Sets.set_saved name (next, commands) k) (command_result seq true next) refl)
        | inr e ↦ rw e (answered k (command_result seq false version) refl)
      ]
  upsert_saved-IsAnswered t seq name base commands none k o =
      answered (Sets.set_saved name (1, commands) k) (command_result seq true 1) refl

  delete_saved-IsAnswered :
      (t seq : ℕ) (name : String) (base : Option ℕ) (found : Option CommandSet) (k : Core)
      (o : Outbox)
      → IsAnswered ui t seq o
          (Sets.delete_saved ui (web_socket t) seq name base found (serving ui k o))
  unfolding Sets.delete_saved send send_web_socket
  delete_saved-IsAnswered t seq name base (some (version, _)) k o =
      let l = record k { saved_command_sets = remove_set name k.saved_command_sets } in
      elim (Bool-cases (Sets.is_current base version)) [
        | inl e ↦ rw e (answered l (ack seq true none) refl)
        | inr e ↦ rw e (answered k (command_result seq false version) refl)
      ]
  delete_saved-IsAnswered t seq name base none k o =
      answered k (ack seq false (some not_found)) refl

  apply_update-IsAnswered :
      (t seq : ℕ) (u : CommandUpdate) (new : MotionCommand × Bool) (k : Core) (o : Outbox)
      → IsAnswered ui t seq o (
          (Sets.apply_update ui u new >> λ s.
          send ui (some (web_socket t)) (command_result seq true s.core.active_command_set.0) s)
            (serving ui k o))
  unfolding Sets.apply_update send send_hid send_web_socket
  apply_update-IsAnswered t seq u (command, true) k o =
      let l = Sets.activate (set k.active_command_set.1 u.index command) k in
      told l (command_set_changed l.active_command_set.0 (some u))
        (command_result seq true l.active_command_set.0) refl refl
  apply_update-IsAnswered t seq u (command, false) k o =
      answered k (command_result seq true k.active_command_set.0) refl

  update-IsAnswered :
      (t seq : ℕ) (u : CommandUpdate) (k : Core) (o : Outbox)
      → IsAnswered ui t seq o (Sets.update_command ui (web_socket t) seq u (serving ui k o))
  unfolding Sets.update_command send send_web_socket
  update-IsAnswered t seq u k o =
      either (is_holder k.core_state.write_access_holder (web_socket t))
        (either (ltb u.index (length k.active_command_set.1))
          (apply_update-IsAnswered t seq u
            (apply_fields (command_at k.active_command_set.1 u.index) u.fields) k o)
          (answered k (ack seq false (some out_of_range)) refl))
        (refused t seq k o)

  state-IsAnswered :
      (t seq : ℕ) (k : Core) (o : Outbox)
      → IsAnswered ui t seq o (Access.get_state ui (web_socket t) seq (serving ui k o))
  unfolding Access.get_state send send_web_socket
  state-IsAnswered t seq k o = answered k (state (some seq) k.core_state) refl

  list-IsAnswered :
      (t seq : ℕ) (k : Core) (o : Outbox)
      → IsAnswered ui t seq o (Sets.list_saved_sets ui (web_socket t) seq (serving ui k o))
  unfolding Sets.list_saved_sets send send_web_socket
  list-IsAnswered t seq k o = answered k _ refl

  -- Where the limits are not negative (the source's clamp panics otherwise), there are WebSocket
  -- clients only and their thread still receives, every message of a client is handled without error
  -- and has exactly one answer: it is sent to that client, last and with the number of the message,
  -- after broadcasts, which have no number.
  pub handle_message-IsAnswered :
      (t : ℕ) (m : ClientMessage) (k : Core) (o : Outbox)
      → IsSound k.limits
      → IsAnswered ui t (request_seq m) o (handle_message ui (web_socket t) m (serving ui k o))
  unfolding handle_message Sets.upsert_command_set Sets.delete_command_set
  handle_message-IsAnswered t (request_write_access seq) k o _ = request-IsAnswered t seq k o
  handle_message-IsAnswered t (release_write_access seq) k o _ = release-IsAnswered t seq k o
  handle_message-IsAnswered t (get_state seq) k o _ = state-IsAnswered t seq k o
  handle_message-IsAnswered t (get_command_set seq name) k o _ = get-IsAnswered t seq name k o
  handle_message-IsAnswered t (upsert_command_set seq none base commands) k o _ =
      replace-IsAnswered t seq base commands k o
  handle_message-IsAnswered t (upsert_command_set seq (some name) base commands) k o _ =
      upsert_saved-IsAnswered t seq name base commands (find_set name k.saved_command_sets) k o
  handle_message-IsAnswered t (update_command seq u) k o _ = update-IsAnswered t seq u k o
  handle_message-IsAnswered t (delete_command_set seq none base) k o _ =
      replace-IsAnswered t seq base [] k o
  handle_message-IsAnswered t (delete_command_set seq (some name) base) k o _ =
      delete_saved-IsAnswered t seq name base (find_set name k.saved_command_sets) k o
  handle_message-IsAnswered t (list_saved_sets seq) k o _ = list-IsAnswered t seq k o
  handle_message-IsAnswered t (set_drive_power seq enabled) k o _ =
      power-IsAnswered t seq enabled k o
  handle_message-IsAnswered t (set_motion_state seq action) k o _ =
      motion-IsAnswered t seq action k o
  handle_message-IsAnswered t (acknowledge_error seq) k o _ = acknowledge-IsAnswered t seq k o
