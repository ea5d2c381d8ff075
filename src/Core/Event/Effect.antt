-- ===== src/Core/Event/Effect.antt =====
-- What a message can do to the core, and who may do it.
pub mod Handlers
pub mod Rights
pub mod Rules
pub mod Conditions
pub mod Settling
pub mod Exact
use Prim.Native.String.{String}
use puddle.Base.{
  ℕ, ◌<◌, ◌≡◌, refl, sym, ◌∙◌, Bool, true, false, Option, none, some, List, [], inl, inr,
  Bool-cases, Option-cases, length, ltb, set,
}
use puddle.Base.Exec.{ok, err, ◌>>◌, pure}
use puddle.Messages.{
  MotionCommand, MotionAction, ControllerId, hid, ClientMessage, request_write_access,
  release_write_access, get_state, get_command_set, upsert_command_set, update_command,
  delete_command_set, list_saved_sets, set_drive_power, set_motion_state, acknowledge_error,
  CommandUpdate, CommandSetId, apply_fields, write_access_result, write_access_changed, ack,
  command_set, not_found, out_of_range, command_result, command_set_changed, invalid_state,
}
use puddle.Core.Manager.{
  HidUi, Core, CoreManager, Act, CommandSet, SavedSets, find_set, put_set, remove_set, set_holder,
  is_holder, update_core, send,
}
use puddle.Core.Manager.Keeps.{
  Keeps, Keeps-seq, send-Keeps, update_core-two, update_core-then, is_holder_lem,
}
use puddle.Core.Access.{can_take_write_access, for_holder, succeed, announce}
use puddle.Core.Access
use puddle.Drive.Connection.{command_at}
use puddle.Core.Sets
use puddle.Core.Power
use puddle.Core.Event.{handle_message}

abbrev pub IsHolder : ControllerId → Core → Type 0
IsHolder id k = k.core_state.write_access_holder ≡ some id

-- The steps that a message of one controller can make, each with the right that it takes.
pub data Effect (id : ControllerId) (k l : Core) : Type 0 where
  stays : l ≡ k → Effect id k l
  takes : can_take_write_access k id ≡ true → l ≡ set_holder (some id) k → Effect id k l
  saves : (sets : SavedSets) → l ≡ record k { saved_command_sets = sets } → Effect id k l
  releases : IsHolder id k → l ≡ set_holder none k → Effect id k l
  replaces :
      IsHolder id k
      → (commands : List MotionCommand) → l ≡ Power.add_action 1 (Sets.activate commands k)
      → Effect id k l
  updates :
      IsHolder id k → (commands : List MotionCommand) → l ≡ Sets.activate commands k → Effect id k l
  powers : IsHolder id k → (enabled : Bool) → l ≡ Power.power enabled k → Effect id k l
  moves :
      IsHolder id k
      → (action : MotionAction) → Power.is_valid_action action k.core_state.drive_state ≡ true
      → l ≡ Power.move action k
      → Effect id k l
  acknowledges : IsHolder id k → l ≡ Power.add_action 2 k → Effect id k l
