-- ===== src/Core/Event/Effect/Handlers.antt =====
-- Each handler of a message makes one step of `Effect`.
use Prim.Native.String.{String}
use puddle.Base.{
  ℕ, ◌≡◌, Bool, true, false, Option, none, some, List, [], inl, inr, Bool-cases, Option-cases,
  length, ltb, set,
}
use puddle.Base.Exec.{◌>>◌}
use puddle.Messages.{
  MotionCommand, MotionAction, ControllerId, ClientMessage, request_write_access,
  release_write_access, get_state, get_command_set, upsert_command_set, update_command,
  delete_command_set, list_saved_sets, set_drive_power, set_motion_state, acknowledge_error,
  CommandUpdate, CommandSetId, apply_fields, write_access_result, write_access_changed, ack,
  command_set, not_found, out_of_range, command_result, command_set_changed, invalid_state,
}
use puddle.Core.Manager.{
  HidUi, Core, CoreManager, Act, CommandSet, find_set, put_set, remove_set, set_holder, is_holder,
  update_core, send,
}
use puddle.Core.Manager.Keeps.{
  Keeps, Keeps-seq, send-Keeps, update_core-two, update_core-then, is_holder_lem,
}
use puddle.Core.Access.{can_take_write_access, for_holder, succeed, announce}
use puddle.Core.Access
use puddle.Drive.Connection.{command_at}
use puddle.Core.Sets
use puddle.Core.Power
use puddle.Core.Event.{handle_message}
use puddle.Core.Event.Effect.{
  Effect, IsHolder, stays, takes, saves, releases, replaces, updates, powers, moves, acknowledges,
}

module _ (ui : HidUi) where
  -- The step of one handler.
  abbrev Does : ControllerId → Act ui (Unit {0}) → Type 0
  Does id m = (s : CoreManager ui) → Effect id s.core (m s).1.core

  for_holder-Does :
      (id : ControllerId) (seq : ℕ) (m : Act ui (Unit {0}))
      → ((s : CoreManager ui) → IsHolder id s.core → Effect id s.core (m s).1.core)
      → Does id (for_holder ui id seq m)
  for_holder-Does id seq m h s =
      elim (Bool-cases (is_holder s.core.core_state.write_access_holder id)) [
        | inl e ↦ rw e (h s (is_holder_lem _ id e))
        | inr e ↦ rw e (stays (send-Keeps ui _ _ s))
      ]

  pub announce-Keeps :
      (id : ControllerId) (previous : Option ControllerId) → Keeps ui (announce ui id previous)
  unfolding announce
  announce-Keeps id previous s = elim (Bool-cases (is_holder previous id)) [
    | inl e ↦ rw e
    | inr e ↦ rw e (send-Keeps ui _ _ s)
  ]

  request-Does : (id : ControllerId) (seq : ℕ) → Does id (Access.request_write_access ui id seq)
  unfolding Access.request_write_access
  request-Does id seq s =
      let previous = s.core.core_state.write_access_holder in
      let granted = write_access_result seq true (some id) in
      elim (Bool-cases (can_take_write_access s.core id)) [
        | inl e ↦ rw e (
            takes e (
              update_core-then ui (set_holder (some id))
                (announce ui id previous >> send ui (some id) granted) s
                (Keeps-seq ui (announce ui id previous) (send ui (some id) granted)
                  (announce-Keeps id previous) (send-Keeps ui (some id) granted))))
        | inr e ↦ rw e (stays (send-Keeps ui (some id) (write_access_result seq false previous) s))
      ]

  release-Does : (id : ControllerId) (seq : ℕ) → Does id (Access.release_write_access ui id seq)
  unfolding Access.release_write_access
  release-Does id seq = for_holder-Does id seq _ (λ s h. releases h (
      update_core-two ui (set_holder none) none (some id) (λ _. write_access_changed none (some id))
        (λ _. ack seq true none) s))

  pub get_state-Keeps : (id : ControllerId) (seq : ℕ) → Keeps ui (Access.get_state ui id seq)
  unfolding Access.get_state
  get_state-Keeps id seq s = send-Keeps ui (some id) _ s

  pub list-Keeps : (id : ControllerId) (seq : ℕ) → Keeps ui (Sets.list_saved_sets ui id seq)
  unfolding Sets.list_saved_sets
  list-Keeps id seq s = send-Keeps ui (some id) _ s

  -- A reply after an update, and a broadcast before it.
  pub succeed-then :
      (id : ControllerId) (seq : ℕ) (f : Core → Core) (s : CoreManager ui)
      → ((update_core ui f >> succeed ui id seq) s).1.core ≡ f s.core
  succeed-then id seq f s =
      update_core-then ui f (succeed ui id seq) s (send-Keeps ui (some id) (ack seq true none))

  power-Does :
      (id : ControllerId) (seq : ℕ) (enabled : Bool)
      → Does id (Power.set_drive_power ui id seq enabled)
  unfolding Power.set_drive_power
  power-Does id seq enabled =
      for_holder-Does id seq _
        (λ s h. powers h enabled (succeed-then id seq (Power.power enabled) s))

  motion-Does :
      (id : ControllerId) (seq : ℕ) (action : MotionAction)
      → Does id (Power.set_motion_state ui id seq action)
  unfolding Power.set_motion_state
  motion-Does id seq action = for_holder-Does id seq _ (λ s h.
      elim (Bool-cases (Power.is_valid_action action s.core.core_state.drive_state)) [
        | inl e ↦ rw e (moves h action e (succeed-then id seq (Power.move action) s))
        | inr e ↦ rw e (stays (send-Keeps ui (some id) (ack seq false (some invalid_state)) s))
      ])

  acknowledge-Does : (id : ControllerId) (seq : ℕ) → Does id (Power.acknowledge_error ui id seq)
  unfolding Power.acknowledge_error
  acknowledge-Does id seq = for_holder-Does id seq _ (λ s h.
      elim (Bool-cases (Power.is_errored s.core.core_state.drive_state)) [
        | inl e ↦ rw e (acknowledges h (succeed-then id seq (Power.add_action 2) s))
        | inr e ↦ rw e (stays (send-Keeps ui (some id) (ack seq false (some invalid_state)) s))
      ])

  replace-Does :
      (id : ControllerId) (seq : ℕ) (base : Option ℕ) (commands : List MotionCommand)
      → Does id (Sets.replace_active ui id seq base commands)
  unfolding Sets.replace_active
  replace-Does id seq base commands = for_holder-Does id seq _ (λ s h.
      let version = λ (t : CoreManager ui). t.core.active_command_set.0 in
      elim (Bool-cases (Sets.is_current base (version s))) [
        | inl e ↦ rw e (
            replaces h commands (
              update_core-two ui (λ k. Power.add_action 1 (Sets.activate commands k)) none (some id)
                (λ t. command_set_changed (version t) none)
                (λ t. command_result seq true (version t)) s))
        | inr e ↦ rw e (stays (send-Keeps ui (some id) (command_result seq false (version s)) s))
      ])

  upsert_saved-Does :
      (id : ControllerId) (seq : ℕ) (name : String) (base : Option ℕ)
      (commands : List MotionCommand) (found : Option CommandSet)
      → Does id (Sets.upsert_saved ui id seq name base commands found)
  unfolding Sets.upsert_saved
  upsert_saved-Does id seq name base commands (some (version, _)) s =
      let next = Sets.next_version version in
      elim (Bool-cases (Sets.is_current base version)) [
        | inl e ↦ rw e (
            saves (put_set name (next, commands) s.core.saved_command_sets) (
              update_core-then ui (Sets.set_saved name (next, commands))
                (send ui (some id) (command_result seq true next)) s
                (send-Keeps ui (some id) (command_result seq true next))))
        | inr e ↦ rw e (stays (send-Keeps ui (some id) (command_result seq false version) s))
      ]
  upsert_saved-Does id seq name base commands none s =
      saves (put_set name (1, commands) s.core.saved_command_sets) (
        update_core-then ui (Sets.set_saved name (1, commands))
          (send ui (some id) (command_result seq true 1)) s
          (send-Keeps ui (some id) (command_result seq true 1)))

  delete_saved-Does :
      (id : ControllerId) (seq : ℕ) (name : String) (base : Option ℕ) (found : Option CommandSet)
      → Does id (Sets.delete_saved ui id seq name base found)
  unfolding Sets.delete_saved
  delete_saved-Does id seq name base (some (version, _)) s =
      elim (Bool-cases (Sets.is_current base version)) [
        | inl e ↦ rw e (
            saves (remove_set name s.core.saved_command_sets) (
              succeed-then id seq
                (λ k. record k { saved_command_sets = remove_set name k.saved_command_sets }) s))
        | inr e ↦ rw e (stays (send-Keeps ui (some id) (command_result seq false version) s))
      ]
  delete_saved-Does id seq name base none s =
      stays (send-Keeps ui (some id) (ack seq false (some not_found)) s)

  upsert-Does :
      (id : ControllerId) (seq : ℕ) (name : CommandSetId) (base : Option ℕ)
      (commands : List MotionCommand)
      → Does id (Sets.upsert_command_set ui id seq name base commands)
  unfolding Sets.upsert_command_set
  upsert-Does id seq none base commands s = replace-Does id seq base commands s
  upsert-Does id seq (some name) base commands s =
      upsert_saved-Does id seq name base commands (find_set name s.core.saved_command_sets) s

  delete-Does :
      (id : ControllerId) (seq : ℕ) (name : CommandSetId) (base : Option ℕ)
      → Does id (Sets.delete_command_set ui id seq name base)
  unfolding Sets.delete_command_set
  delete-Does id seq none base s = replace-Does id seq base [] s
  delete-Does id seq (some name) base s =
      delete_saved-Does id seq name base (find_set name s.core.saved_command_sets) s

  pub get-Keeps :
      (id : ControllerId) (seq : ℕ) (name : CommandSetId)
      → Keeps ui (Sets.get_command_set ui id seq name)
  unfolding Sets.get_command_set
  get-Keeps id seq none s =
      send-Keeps ui (some id)
        (command_set seq none s.core.active_command_set.0 s.core.active_command_set.1) s
  get-Keeps id seq (some name) s = elim (Option-cases (find_set name s.core.saved_command_sets)) [
    | inl e ↦
        rw (e, Sets.get_command_set) (send-Keeps ui (some id) (ack seq false (some not_found)) s)
    | inr ((version, commands), e) ↦
        rw (e, Sets.get_command_set)
          (send-Keeps ui (some id) (command_set seq (some name) version commands) s)
  ]

  apply_update-Does :
      (id : ControllerId) (seq : ℕ) (u : CommandUpdate) (new : MotionCommand × Bool)
      (s : CoreManager ui)
      → IsHolder id s.core
      → Effect id s.core
          ((Sets.apply_update ui u new >> λ t.
              send ui (some id) (command_result seq true t.core.active_command_set.0) t)
            s).1.core
  unfolding Sets.apply_update
  apply_update-Does id seq u (command, true) s h =
      updates h (set s.core.active_command_set.1 u.index command) (
        update_core-two ui (λ k. Sets.activate (set k.active_command_set.1 u.index command) k) none
          (some id) (λ t. command_set_changed t.core.active_command_set.0 (some u))
          (λ t. command_result seq true t.core.active_command_set.0) s)
  apply_update-Does id seq u (command, false) s h =
      stays (send-Keeps ui (some id) (command_result seq true s.core.active_command_set.0) s)

  update-Does :
      (id : ControllerId) (seq : ℕ) (u : CommandUpdate) → Does id (Sets.update_command ui id seq u)
  unfolding Sets.update_command
  update-Does id seq u = for_holder-Does id seq _ (λ s h.
      elim (Bool-cases (ltb u.index (length s.core.active_command_set.1))) [
        | inl e ↦ rw e (
            apply_update-Does id seq u
              (apply_fields (command_at s.core.active_command_set.1 u.index) u.fields) s h)
        | inr e ↦ rw e (stays (send-Keeps ui (some id) (ack seq false (some out_of_range)) s))
      ])

  -- Each message makes one of the steps of `Effect`.
  pub handle_message-Effect :
      (id : ControllerId) (m : ClientMessage) (s : CoreManager ui)
      → Effect id s.core (handle_message ui id m s).1.core
  unfolding handle_message
  handle_message-Effect id (request_write_access seq) s = request-Does id seq s
  handle_message-Effect id (release_write_access seq) s = release-Does id seq s
  handle_message-Effect id (get_state seq) s = stays (get_state-Keeps id seq s)
  handle_message-Effect id (get_command_set seq name) s = stays (get-Keeps id seq name s)
  handle_message-Effect id (upsert_command_set seq name base commands) s =
      upsert-Does id seq name base commands s
  handle_message-Effect id (update_command seq u) s = update-Does id seq u s
  handle_message-Effect id (delete_command_set seq name base) s = delete-Does id seq name base s
  handle_message-Effect id (list_saved_sets seq) s = stays (list-Keeps id seq s)
  handle_message-Effect id (set_drive_power seq enabled) s = power-Does id seq enabled s
  handle_message-Effect id (set_motion_state seq action) s = motion-Does id seq action s
  handle_message-Effect id (acknowledge_error seq) s = acknowledge-Does id seq s
