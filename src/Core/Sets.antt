-- ===== src/Core/Sets.antt =====
-- src/main.rs: the answers of `handle_message` to what concerns command sets.
use Prim.Native.String.{String}
use puddle.Base.{
  ℕ, Bool, true, false, ◌==◌, Option, none, some, List, [], map, length, ltb, set, if◌then◌else◌,
}
use puddle.Base.Exec.{◌>>◌, pure}
use puddle.Drive.Words.{add64}
use puddle.Drive.Connection.{action_reset_index, command_at}
use puddle.Messages.{
  MotionCommand, apply_fields, ControllerId, CommandSetId, CommandUpdate, SavedSetMetadata,
  not_found, out_of_range, command_set, command_result, command_set_changed, saved_set_list,
}
use puddle.Core.Manager.{
  HidUi, Core, Act, CommandSet, find_set, put_set, remove_set, sync_commands_to_drive, update_core,
  send,
}
use puddle.Core.Access.{fail, succeed, for_holder}
use puddle.Core.Power.{add_action}

-- `base_version.is_none() || base_version == Some(version)`
abbrev pub is_current : Option ℕ → ℕ → Bool
is_current none version = true
is_current (some base) version = base == version

abbrev pub next_version : ℕ → ℕ
next_version version = add64 version 1

abbrev pub set_saved : String → CommandSet → Core → Core
set_saved name set k = record k { saved_command_sets = put_set name set k.saved_command_sets }

-- A new active set, with the next version, for the drive too.
unfoldable pub activate : List MotionCommand → Core → Core
activate commands k =
    sync_commands_to_drive
      (record k { active_command_set = (next_version k.active_command_set.0, commands) })

abbrev saved_metadata : String × CommandSet → SavedSetMetadata
saved_metadata (name, (version, _)) = record { name = name; version = version; saved_at = "" }

module _ (ui : HidUi) where
  abbrev answer_version : ControllerId → ℕ → Bool → Act ui (Unit {0})
  answer_version id seq success s =
      send ui (some id) (command_result seq success s.core.active_command_set.0) s

  -- The active set is replaced: by the commands of a request or by none.
  unfoldable pub replace_active :
      ControllerId → ℕ → Option ℕ → List MotionCommand → Act ui (Unit {0})
  replace_active id seq base commands = for_holder ui id seq (λ s.
      if is_current base s.core.active_command_set.0
      then (do
        update_core ui (λ k. add_action action_reset_index (activate commands k))
        λ t. send ui none (command_set_changed t.core.active_command_set.0 none) t
        answer_version id seq true)
          s
      else answer_version id seq false s)

  unfoldable pub get_command_set : ControllerId → ℕ → CommandSetId → Act ui (Unit {0})
  get_command_set id seq none s =
      send ui (some id)
        (command_set seq none s.core.active_command_set.0 s.core.active_command_set.1) s
  get_command_set id seq (some name) s = elim (find_set name s.core.saved_command_sets) [
    | some (version, commands) ↦ send ui (some id) (command_set seq (some name) version commands) s
    | none ↦ fail ui id seq not_found s
  ]

  unfoldable pub upsert_saved :
      ControllerId
      → ℕ
      → String
      → Option ℕ
      → List MotionCommand
      → Option CommandSet
      → Act ui (Unit {0})
  upsert_saved id seq name base commands (some (version, _)) =
      if is_current base version
      then (do
        update_core ui (set_saved name (next_version version, commands))
        send ui (some id) (command_result seq true (next_version version)))
      else send ui (some id) (command_result seq false version)
  upsert_saved id seq name base commands none = do
    update_core ui (set_saved name (1, commands))
    send ui (some id) (command_result seq true 1)

  unfoldable pub upsert_command_set :
      ControllerId → ℕ → CommandSetId → Option ℕ → List MotionCommand → Act ui (Unit {0})
  unfolding upsert_saved replace_active
  upsert_command_set id seq none base commands s = replace_active id seq base commands s
  upsert_command_set id seq (some name) base commands s =
      upsert_saved id seq name base commands (find_set name s.core.saved_command_sets) s

  -- `apply_fields` on the command of the index, which is in range, and what follows from a change.
  unfoldable pub apply_update : CommandUpdate → MotionCommand × Bool → Act ui (Unit {0})
  apply_update update (command, true) = do
    update_core ui (λ k. activate (set k.active_command_set.1 update.index command) k)
    λ t. send ui none (command_set_changed t.core.active_command_set.0 (some update)) t
  apply_update update (command, false) = pure tt

  unfoldable pub update_command : ControllerId → ℕ → CommandUpdate → Act ui (Unit {0})
  unfolding apply_update
  update_command id seq update = for_holder ui id seq (λ s.
      if ltb update.index (length s.core.active_command_set.1)
      then (do
        apply_update update
            (apply_fields (command_at s.core.active_command_set.1 update.index) update.fields)
        answer_version id seq true)
          s
      else fail ui id seq out_of_range s)

  unfoldable pub delete_saved :
      ControllerId → ℕ → String → Option ℕ → Option CommandSet → Act ui (Unit {0})
  delete_saved id seq name base (some (version, _)) =
      if is_current base version
      then (do
        update_core ui (λ k. record k { saved_command_sets = remove_set name k.saved_command_sets })
        succeed ui id seq)
      else send ui (some id) (command_result seq false version)
  delete_saved id seq name base none = fail ui id seq not_found

  unfoldable pub delete_command_set : ControllerId → ℕ → CommandSetId → Option ℕ → Act ui (Unit {0})
  unfolding delete_saved replace_active
  delete_command_set id seq none base s = replace_active id seq base [] s
  delete_command_set id seq (some name) base s =
      delete_saved id seq name base (find_set name s.core.saved_command_sets) s

  -- A map of the source lists its names in no order of its own; here it is that of the list.
  unfoldable pub list_saved_sets : ControllerId → ℕ → Act ui (Unit {0})
  list_saved_sets id seq s =
      send ui (some id) (saved_set_list seq (map saved_metadata s.core.saved_command_sets)) s
