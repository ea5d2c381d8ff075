-- ===== src/Hid/Ui/Live/Answers.antt =====
-- Every handler of a message succeeds while the controllers can be reached.
use Prim.Native.String.{String}
use puddle.Base.{
  ℕ, Bool, true, false, Option, none, some, List, [], inl, inr, Option-cases, length, ltb, set,
}
use puddle.Base.Exec.{◌>>◌}
use puddle.Messages.{
  ControllerId, MotionCommand, MotionAction, CommandUpdate, CommandSetId, apply_fields,
  ClientMessage, request_write_access, release_write_access, get_state, get_command_set,
  upsert_command_set, update_command, delete_command_set, list_saved_sets, set_drive_power,
  set_motion_state, acknowledge_error, ack, write_access_result, command_set, command_result, state,
  command_set_changed, write_access_changed, invalid_state, not_found, out_of_range,
}
use puddle.Core.Manager.{
  CoreManager, CommandSet, find_set, remove_set, set_holder, is_holder, update_core, send,
}
use puddle.Core.Access.{can_take_write_access, announce}
use puddle.Core.Access
use puddle.Core.Sets
use puddle.Core.Power
use puddle.Core.Event.{handle_message, controller_gone}
use puddle.Drive.Connection.{command_at}
use puddle.Hid.Ui.Variables.{Scale}
use puddle.Hid.Ui.Report.{hid_ui}
use puddle.Hid.Ui.Live.{
  Fine, Fine-pure, Fine-seq, Fine-update, Fine-if, send-Fine, Fine-test, Fine-with, Fine-holder,
  Fine-three, Fine-two,
}

module _ (scale : Scale) where
  announce-Fine :
      (id : ControllerId) (previous : Option ControllerId)
      → Fine scale (announce (hid_ui scale) id previous)
  unfolding announce
  announce-Fine id previous =
      Fine-if scale (is_holder previous id) _ _ (Fine-pure scale)
        (send-Fine scale none (write_access_changed (some id) previous))

  request-Fine :
      (id : ControllerId) (seq : ℕ) → Fine scale (Access.request_write_access (hid_ui scale) id seq)
  unfolding Access.request_write_access
  request-Fine id seq c s live =
      let previous = s.core.core_state.write_access_holder in
      Fine-test scale (λ t. can_take_write_access t.core id)
        (update_core (hid_ui scale) (set_holder (some id))
          >> (announce (hid_ui scale) id previous
              >> send (hid_ui scale) (some id) (write_access_result seq true (some id))))
        (send (hid_ui scale) (some id) (write_access_result seq false previous))
        (Fine-seq scale (update_core (hid_ui scale) (set_holder (some id))) _
          (Fine-update scale (set_holder (some id)))
          (Fine-seq scale (announce (hid_ui scale) id previous)
            (send (hid_ui scale) (some id) (write_access_result seq true (some id)))
            (announce-Fine id previous)
            (send-Fine scale (some id) (write_access_result seq true (some id)))))
        (send-Fine scale (some id) (write_access_result seq false previous)) c s live

  release-Fine :
      (id : ControllerId) (seq : ℕ) → Fine scale (Access.release_write_access (hid_ui scale) id seq)
  unfolding Access.release_write_access
  release-Fine id seq = Fine-holder scale id seq _ (
      Fine-three scale (set_holder none) none (some id) (λ _. write_access_changed none (some id))
        (λ _. ack seq true none))

  power-Fine :
      (id : ControllerId) (seq : ℕ) (enabled : Bool)
      → Fine scale (Power.set_drive_power (hid_ui scale) id seq enabled)
  unfolding Power.set_drive_power
  power-Fine id seq enabled =
      Fine-holder scale id seq _
        (Fine-two scale (Power.power enabled) (some id) (ack seq true none))

  motion-Fine :
      (id : ControllerId) (seq : ℕ) (action : MotionAction)
      → Fine scale (Power.set_motion_state (hid_ui scale) id seq action)
  unfolding Power.set_motion_state
  motion-Fine id seq action = Fine-holder scale id seq _ (
      Fine-test scale (λ s. Power.is_valid_action action s.core.core_state.drive_state) _ _
        (Fine-two scale (Power.move action) (some id) (ack seq true none))
        (send-Fine scale (some id) (ack seq false (some invalid_state))))

  acknowledge-Fine :
      (id : ControllerId) (seq : ℕ) → Fine scale (Power.acknowledge_error (hid_ui scale) id seq)
  unfolding Power.acknowledge_error
  acknowledge-Fine id seq = Fine-holder scale id seq _ (
      Fine-test scale (λ s. Power.is_errored s.core.core_state.drive_state) _ _
        (Fine-two scale (Power.add_action 2) (some id) (ack seq true none))
        (send-Fine scale (some id) (ack seq false (some invalid_state))))

  replace-Fine :
      (id : ControllerId) (seq : ℕ) (base : Option ℕ) (commands : List MotionCommand)
      → Fine scale (Sets.replace_active (hid_ui scale) id seq base commands)
  unfolding Sets.replace_active
  replace-Fine id seq base commands = Fine-holder scale id seq _ (
      Fine-test scale (λ s. Sets.is_current base s.core.active_command_set.0) _ _
        (Fine-three scale (λ k. Power.add_action 1 (Sets.activate commands k)) none (some id)
          (λ t. command_set_changed t.core.active_command_set.0 none)
          (λ t. command_result seq true t.core.active_command_set.0))
        (Fine-with scale (some id) (λ t. command_result seq false t.core.active_command_set.0)))

  upsert_saved-Fine :
      (id : ControllerId) (seq : ℕ) (name : String) (base : Option ℕ)
      (commands : List MotionCommand) (found : Option CommandSet)
      → Fine scale (Sets.upsert_saved (hid_ui scale) id seq name base commands found)
  unfolding Sets.upsert_saved
  upsert_saved-Fine id seq name base commands (some (version, _)) =
      let next = Sets.next_version version in
      Fine-if scale (Sets.is_current base version) _ _
        (Fine-two scale (Sets.set_saved name (next, commands)) (some id)
          (command_result seq true next))
        (send-Fine scale (some id) (command_result seq false version))
  upsert_saved-Fine id seq name base commands none =
      Fine-two scale (Sets.set_saved name (1, commands)) (some id) (command_result seq true 1)

  delete_saved-Fine :
      (id : ControllerId) (seq : ℕ) (name : String) (base : Option ℕ) (found : Option CommandSet)
      → Fine scale (Sets.delete_saved (hid_ui scale) id seq name base found)
  unfolding Sets.delete_saved
  delete_saved-Fine id seq name base (some (version, _)) =
      Fine-if scale (Sets.is_current base version) _ _
        (Fine-two scale
          (λ k. record k { saved_command_sets = remove_set name k.saved_command_sets }) (some id)
          (ack seq true none))
        (send-Fine scale (some id) (command_result seq false version))
  delete_saved-Fine id seq name base none =
      send-Fine scale (some id) (ack seq false (some not_found))

  get-Fine :
      (id : ControllerId) (seq : ℕ) (name : CommandSetId)
      → Fine scale (Sets.get_command_set (hid_ui scale) id seq name)
  unfolding Sets.get_command_set
  get-Fine id seq none c s live =
      Fine-with scale (some id)
        (λ t. command_set seq none t.core.active_command_set.0 t.core.active_command_set.1) c s live
  get-Fine id seq (some name) c s live =
      elim (Option-cases (find_set name s.core.saved_command_sets)) [
        | inl e ↦
            rw (e, Sets.get_command_set)
              (send-Fine scale (some id) (ack seq false (some not_found)) c s live)
        | inr ((version, commands), e) ↦
            rw (e, Sets.get_command_set)
              (send-Fine scale (some id) (command_set seq (some name) version commands) c s live)
      ]

  apply_update-Fine :
      (u : CommandUpdate) (new : MotionCommand × Bool)
      → Fine scale (Sets.apply_update (hid_ui scale) u new)
  unfolding Sets.apply_update
  apply_update-Fine u (command, true) =
      Fine-seq scale
        (update_core (hid_ui scale)
          (λ k. Sets.activate (set k.active_command_set.1 u.index command) k))
        _ (Fine-update scale (λ k. Sets.activate (set k.active_command_set.1 u.index command) k))
        (Fine-with scale none (λ t. command_set_changed t.core.active_command_set.0 (some u)))
  apply_update-Fine u (command, false) = Fine-pure scale

  update-Fine :
      (id : ControllerId) (seq : ℕ) (u : CommandUpdate)
      → Fine scale (Sets.update_command (hid_ui scale) id seq u)
  unfolding Sets.update_command
  update-Fine id seq u =
      let new = λ (s : CoreManager (hid_ui scale)).
        apply_fields (command_at s.core.active_command_set.1 u.index) u.fields in
      let answer = λ (t : CoreManager (hid_ui scale)).
        send (hid_ui scale) (some id) (command_result seq true t.core.active_command_set.0) t in
      Fine-holder scale id seq _ (
        Fine-test scale (λ s. ltb u.index (length s.core.active_command_set.1))
          (λ s. (Sets.apply_update (hid_ui scale) u (new s) >> answer) s) _
          (λ c s live.
            Fine-seq scale (Sets.apply_update (hid_ui scale) u (new s)) answer
              (apply_update-Fine u (new s))
              (Fine-with scale (some id) (λ t. command_result seq true t.core.active_command_set.0))
              c s live)
          (send-Fine scale (some id) (ack seq false (some out_of_range))))

  upsert-Fine :
      (id : ControllerId) (seq : ℕ) (name : CommandSetId) (base : Option ℕ)
      (commands : List MotionCommand)
      → Fine scale (Sets.upsert_command_set (hid_ui scale) id seq name base commands)
  unfolding Sets.upsert_command_set
  upsert-Fine id seq none base commands c s live = replace-Fine id seq base commands c s live
  upsert-Fine id seq (some name) base commands c s live =
      upsert_saved-Fine id seq name base commands (find_set name s.core.saved_command_sets) c s live

  delete-Fine :
      (id : ControllerId) (seq : ℕ) (name : CommandSetId) (base : Option ℕ)
      → Fine scale (Sets.delete_command_set (hid_ui scale) id seq name base)
  unfolding Sets.delete_command_set
  delete-Fine id seq none base c s live = replace-Fine id seq base [] c s live
  delete-Fine id seq (some name) base c s live =
      delete_saved-Fine id seq name base (find_set name s.core.saved_command_sets) c s live

  pub handle_message-Fine :
      (id : ControllerId) (m : ClientMessage) → Fine scale (handle_message (hid_ui scale) id m)
  unfolding handle_message Access.get_state Sets.list_saved_sets
  handle_message-Fine id (request_write_access seq) = request-Fine id seq
  handle_message-Fine id (release_write_access seq) = release-Fine id seq
  handle_message-Fine id (get_state seq) =
      Fine-with scale (some id) (λ t. state (some seq) t.core.core_state)
  handle_message-Fine id (get_command_set seq name) = get-Fine id seq name
  handle_message-Fine id (upsert_command_set seq name base commands) =
      upsert-Fine id seq name base commands
  handle_message-Fine id (update_command seq u) = update-Fine id seq u
  handle_message-Fine id (delete_command_set seq name base) = delete-Fine id seq name base
  handle_message-Fine id (list_saved_sets seq) = λ c s live. send-Fine scale (some id) _ c s live
  handle_message-Fine id (set_drive_power seq enabled) = power-Fine id seq enabled
  handle_message-Fine id (set_motion_state seq action) = motion-Fine id seq action
  handle_message-Fine id (acknowledge_error seq) = acknowledge-Fine id seq

  pub gone-Fine : (id : ControllerId) → Fine scale (controller_gone (hid_ui scale) id)
  unfolding controller_gone
  gone-Fine id =
      Fine-test scale (λ s. is_holder s.core.core_state.write_access_holder id) _ _
        (Fine-two scale (λ k. Power.set_enabled false false (set_holder none k)) none
          (write_access_changed none (some id)))
        (Fine-pure scale)
