-- ===== src/Core/Event/Effect/Exact.antt =====
-- The handlers of src/main.rs for command sets follow their rules, and so does `handle_message`.
use Prim.Native.String.{String}
use puddle.Base.{
  ℕ, ◌<◌, ◌≡◌, ◌∙◌, ap, refl, arith, Bool, true, false, Option, none, some, List, [], inl, inr,
  Bool-cases, length, ltb, set,
}
use puddle.Base.Exec.{◌>>◌}
use puddle.Messages.{
  MotionCommand, ControllerId, ClientMessage, request_write_access, release_write_access, get_state,
  get_command_set, upsert_command_set, update_command, delete_command_set, list_saved_sets,
  set_drive_power, set_motion_state, acknowledge_error, CommandUpdate, CommandSetId, ack, not_found,
  out_of_range, command_result, command_set_changed,
}
use puddle.Core.Manager.{HidUi, CoreManager, CommandSet, find_set, put_set, remove_set, send}
use puddle.Core.Manager.Keeps.{send-Keeps, update_core-two, update_core-then}
use puddle.Core.Sets
use puddle.Core.Power
use puddle.Core.Event.{handle_message}
use puddle.Core.Event.Effect.{IsHolder}
use puddle.Core.Event.Effect.Handlers.{succeed-then, get_state-Keeps, get-Keeps, list-Keeps}
use puddle.Core.Event.Effect.Rules.{
  IsBase, MaySave, MayDelete, May, After, Settles, updated, with_saved, saved_version, with_active,
  with_action,
}
use puddle.Core.Event.Effect.Conditions.{is_current-IsBase, is_current-refused, activate_lem}
use puddle.Core.Event.Effect.Settling.{
  for_holder-Settles, Does, request-Does, release-Does, power-Does, motion-Does, acknowledge-Does,
}

module _ (ui : HidUi) where
  replace-Settles :
      (id : ControllerId) (seq : ℕ) (base : Option ℕ) (commands : List MotionCommand)
      → (s : CoreManager ui)
      → Settles
          (IsHolder id s.core × IsBase base s.core.active_command_set.0)
          (with_action 1 (with_active commands s.core))
          s.core
          (Sets.replace_active ui id seq base commands s).1.core
  unfolding Sets.replace_active
  replace-Settles id seq base commands =
      let version = λ (t : CoreManager ui). t.core.active_command_set.0 in
      for_holder-Settles ui (λ k. IsBase base k.active_command_set.0)
        (λ k. with_action 1 (with_active commands k)) id seq _
        (λ s. elim (Bool-cases (Sets.is_current base (version s))) [
          | inl e ↦ rw e (
              inl (
                is_current-IsBase base (version s) e,
                update_core-two ui (λ k. Power.add_action 1 (Sets.activate commands k)) none
                      (some id) (λ t. command_set_changed (version t) none)
                      (λ t. command_result seq true (version t)) s
                    ∙ ap (Power.add_action 1) (activate_lem commands s.core),
              ))
          | inr e ↦ rw e (
              inr (
                is_current-refused base (version s) e,
                send-Keeps ui (some id) (command_result seq false (version s)) s,
              ))
        ])

  upsert_saved-Settles :
      (id : ControllerId) (seq : ℕ) (name : String) (base : Option ℕ)
      (commands : List MotionCommand) (found : Option CommandSet) (s : CoreManager ui)
      → Settles
          (MaySave base found)
          (with_saved
            (put_set name (saved_version found, commands) s.core.saved_command_sets)
            s.core)
          s.core
          (Sets.upsert_saved ui id seq name base commands found s).1.core
  unfolding Sets.upsert_saved
  upsert_saved-Settles id seq name base commands (some (version, _)) s =
      let next = Sets.next_version version in
      elim (Bool-cases (Sets.is_current base version)) [
        | inl e ↦ rw e (
            inl (
              is_current-IsBase base version e,
              update_core-then ui (Sets.set_saved name (next, commands))
                  (send ui (some id) (command_result seq true next)) s
                  (send-Keeps ui (some id) (command_result seq true next)),
            ))
        | inr e ↦ rw e (
            inr (
              is_current-refused base version e,
              send-Keeps ui (some id) (command_result seq false version) s,
            ))
      ]
  upsert_saved-Settles id seq name base commands none s = inl (
    tt,
    update_core-then ui (Sets.set_saved name (1, commands))
        (send ui (some id) (command_result seq true 1)) s
        (send-Keeps ui (some id) (command_result seq true 1)),
  )

  delete_saved-Settles :
      (id : ControllerId) (seq : ℕ) (name : String) (base : Option ℕ) (found : Option CommandSet)
      (s : CoreManager ui)
      → Settles
          (MayDelete base found)
          (with_saved (remove_set name s.core.saved_command_sets) s.core)
          s.core
          (Sets.delete_saved ui id seq name base found s).1.core
  unfolding Sets.delete_saved
  delete_saved-Settles id seq name base (some (version, _)) s =
      elim (Bool-cases (Sets.is_current base version)) [
        | inl e ↦ rw e (
            inl (
              is_current-IsBase base version e,
              succeed-then ui id seq
                  (λ k. record k { saved_command_sets = remove_set name k.saved_command_sets }) s,
            ))
        | inr e ↦ rw e (
            inr (
              is_current-refused base version e,
              send-Keeps ui (some id) (command_result seq false version) s,
            ))
      ]
  delete_saved-Settles id seq name base none s =
      inr (λ never. never, send-Keeps ui (some id) (ack seq false (some not_found)) s)

  upsert-Does :
      (id : ControllerId) (seq : ℕ) (name : CommandSetId) (base : Option ℕ)
      (commands : List MotionCommand)
      → Does ui id
          (upsert_command_set seq name base commands)
          (Sets.upsert_command_set ui id seq name base commands)
  unfolding Sets.upsert_command_set
  upsert-Does id seq none base commands s = replace-Settles id seq base commands s
  upsert-Does id seq (some name) base commands s =
      upsert_saved-Settles id seq name base commands (find_set name s.core.saved_command_sets) s

  delete-Does :
      (id : ControllerId) (seq : ℕ) (name : CommandSetId) (base : Option ℕ)
      → Does ui id (delete_command_set seq name base) (Sets.delete_command_set ui id seq name base)
  unfolding Sets.delete_command_set
  delete-Does id seq none base s = replace-Settles id seq base [] s
  delete-Does id seq (some name) base s =
      delete_saved-Settles id seq name base (find_set name s.core.saved_command_sets) s

  apply_update-Settles :
      (id : ControllerId) (seq : ℕ) (u : CommandUpdate) (new : MotionCommand × Bool)
      (s : CoreManager ui)
      → u.index < length s.core.active_command_set.1
      → Settles
          ((u.index < length s.core.active_command_set.1) × (new.1 ≡ true))
          (with_active (set s.core.active_command_set.1 u.index new.0) s.core)
          s.core
          ((Sets.apply_update ui u new >> λ t.
              send ui (some id) (command_result seq true t.core.active_command_set.0) t)
            s).1.core
  unfolding Sets.apply_update
  apply_update-Settles id seq u (command, true) s lt = inl (
    (lt, refl),
    update_core-two ui (λ k. Sets.activate (set k.active_command_set.1 u.index command) k) none
          (some id) (λ t. command_set_changed t.core.active_command_set.0 (some u))
          (λ t. command_result seq true t.core.active_command_set.0) s
        ∙ activate_lem (set s.core.active_command_set.1 u.index command) s.core,
  )
  apply_update-Settles id seq u (command, false) s lt = inr (
    λ both. let changed = both.1 in cc,
    send-Keeps ui (some id) (command_result seq true s.core.active_command_set.0) s,
  )

  update-Does :
      (id : ControllerId) (seq : ℕ) (u : CommandUpdate)
      → Does ui id (update_command seq u) (Sets.update_command ui id seq u)
  unfolding Sets.update_command
  update-Does id seq u =
      for_holder-Settles ui
        (λ k. (u.index < length k.active_command_set.1) × ((updated u k).1 ≡ true))
        (After id (update_command seq u)) id seq _
        (λ s. elim (Bool-cases (ltb u.index (length s.core.active_command_set.1))) [
          | inl e ↦ rw e (apply_update-Settles id seq u (updated u s.core) s (ground arith))
          | inr e ↦ rw e (
              inr (
                λ both. let lt = both.0 in ground arith,
                send-Keeps ui (some id) (ack seq false (some out_of_range)) s,
              ))
        ])

  -- Whether or not the answers can be sent: where the rule of a message lets its sender change the
  -- core, it is changed as the rule says, and where it does not, the core stays as it is.
  pub handle_message-Settles :
      (id : ControllerId) (m : ClientMessage) (s : CoreManager ui)
      → Settles (May id m s.core) (After id m s.core) s.core (handle_message ui id m s).1.core
  unfolding handle_message
  handle_message-Settles id (request_write_access seq) s = request-Does ui id seq s
  handle_message-Settles id (release_write_access seq) s = release-Does ui id seq s
  handle_message-Settles id (get_state seq) s = inr (λ n. n, get_state-Keeps ui id seq s)
  handle_message-Settles id (get_command_set seq name) s = inr (λ n. n, get-Keeps ui id seq name s)
  handle_message-Settles id (upsert_command_set seq name base commands) s =
      upsert-Does id seq name base commands s
  handle_message-Settles id (update_command seq u) s = update-Does id seq u s
  handle_message-Settles id (delete_command_set seq name base) s = delete-Does id seq name base s
  handle_message-Settles id (list_saved_sets seq) s = inr (λ n. n, list-Keeps ui id seq s)
  handle_message-Settles id (set_drive_power seq enabled) s = power-Does ui id seq enabled s
  handle_message-Settles id (set_motion_state seq action) s = motion-Does ui id seq action s
  handle_message-Settles id (acknowledge_error seq) s = acknowledge-Does ui id seq s
